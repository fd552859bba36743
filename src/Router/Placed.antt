-- ===== src/Router/Placed.antt =====
-- Lemmas on the search that `route` of router/router.go makes: what the candidates that it has
-- passed over have in common, and what sorting them leaves alone.
use mathlib.Core.List.Permᴰ
use llm_bridge.Backend.Pool.{Pool, Conn, conn, acquire, acquire-cases, get_server}
use llm_bridge.Router.Select.{ServerInfo, collect, has_room, groups}
use llm_bridge.Router.Try.{IsRegistered}
use llm_bridge.Router.Groups.{
  ByDistance, ByDistance-append, IsGroup, concat-groups, groups-IsGroup, IsPlaced,
}
use llm_bridge.Router.Best.{Float64, best_of}
use llm_bridge.Base.{
  true, arith, String, ◌≡◌, refl, sym, ap, subst, ◌∙◌, ◌≢◌, inl, inr, false, none, List, [], ◌∷◌,
  ◌++◌, append_assoc, arith, Option-cases, All, Memᴰ, Permᴰ, Memᴰ-append, Memᴰ-append_left,
  Memᴰ-append_right, Permᴰ-Memᴰ, All-Memᴰ, All-of_Memᴰ, concat, concat-append, lookup,
}
use llm_bridge.Base.Int.{◌<ℤ◌, ◌≤ℤ◌}

-- A candidate is full.
abbrev pub IsFull : ServerInfo → Type 0
IsFull si = si.max_conn ≤ℤ si.inflight

pub IsFull-of_no_room : (si : ServerInfo) → has_room si ≡ false → IsFull si
IsFull-of_no_room si h = ground arith

pub has_room-lt : (si : ServerInfo) → has_room si ≡ true → si.inflight <ℤ si.max_conn
has_room-lt si h = ground arith

module _ {s : List ServerInfo} {p : Pool} {c : Conn} {q : Pool} where
  -- The candidates, as the search has seen them.
  IsPlaced-whole :
      (l : IsPlaced (groups s) p c q) → concat l.before ++ (l.group ++ concat l.after) ≡ s
  IsPlaced-whole l =
      sym (concat-append l.before (l.group ∷ l.after)) ∙ ap concat (sym l.split) ∙ concat-groups s

  pub IsPlaced-listed : (l : IsPlaced (groups s) p c q) → Memᴰ l.found.info s
  IsPlaced-listed l =
      subst (Memᴰ l.found.info) (IsPlaced-whole l)
        (Memᴰ-append_right (concat l.before) _ (Memᴰ-append_left l.group _ l.found.listed))

  -- Every candidate that is nearer than the one found is full.
  pub IsPlaced-nearer :
      (l : IsPlaced (groups s) p c q)
      → ByDistance s
      → (sj : ServerInfo) → Memᴰ sj s
      → IsRegistered p sj
      → sj.distance <ℤ l.found.info.distance
      → IsFull sj
  IsPlaced-nearer l sorted sj m known near =
      elim (Memᴰ-append (concat l.before) _ (subst (Memᴰ sj) (sym (IsPlaced-whole l)) m)) [
        | inl n ↦ IsFull-of_no_room sj (l.full sj n known)
        | inr n ↦ elim (Memᴰ-append l.group (concat l.after) n) [
          | inl o ↦
              let g =
                All-Memᴰ IsGroup (groups s)
                  (subst (Memᴰ l.group) (sym l.split)
                    (Memᴰ-append_right l.before (l.group ∷ l.after) (Memᴰ.head refl)))
                  (groups-IsGroup s) in
              let a = All-Memᴰ (λ si. si.distance ≡ g.distance) l.group o g.same in
              let b = All-Memᴰ (λ si. si.distance ≡ g.distance) l.group l.found.listed g.same in
              absurd (ground (arith, near, a, b))
          | inr o ↦ absurd (
              omega (
                arith,
                near,
                ByDistance-append (concat l.before ++ l.group) (concat l.after)
                    (subst ByDistance
                      (sym (IsPlaced-whole l) ∙ sym (append_assoc (concat l.before) l.group _))
                      sorted)
                    (Memᴰ-append_right (concat l.before) l.group l.found.listed) o,
              ))
        ]
      ]

pub acquire-known :
    (id : String) (p : Pool)
    → lookup id p.clients ≢ none
    → (acquire none id p).1 ≡ conn (record { server_id = id })
acquire-known id p known = elim (acquire-cases none id p) [
  | inl (missing, r) ↦ absurd (known missing)
  | inr (inr (bc, x, found, e, r)) ↦ absurd (cc)
  | inr (inl (bc, found, e, r)) ↦ ap (λ a. a.1) r
]

pub collect-IsRegistered : (p : Pool) (urls : List String) → All (IsRegistered p) (collect p urls)
unfolding collect get_server
collect-IsRegistered p [] = tt
collect-IsRegistered p (url ∷ urls) = elim (Option-cases (lookup url p.clients)) [
  | inl e ↦ rw e (collect-IsRegistered p urls)
  | inr (bc, e) ↦ rw e (λ missing. cc, collect-IsRegistered p urls)
]

pub All-perm :
    (P : ServerInfo → Type 0) {xs ys : List ServerInfo} → Permᴰ xs ys → All P xs → All P ys
All-perm P {xs} {ys} perm h =
    All-of_Memᴰ P ys (λ si m. All-Memᴰ P xs (Permᴰ-Memᴰ (Permᴰ.symm perm) m) h)

pub Permᴰ-nil : {xs ys : List ServerInfo} → xs ≡ [] → Permᴰ xs ys → ys ≡ []
Permᴰ-nil {ys} e perm = go ys (λ si m. subst (Memᴰ si) e (Permᴰ-Memᴰ (Permᴰ.symm perm) m))
  where
    go : (zs : List ServerInfo) → ((si : ServerInfo) → Memᴰ si zs → Memᴰ si []) → zs ≡ []
    go [] h = refl
    go (z ∷ zs) h = absurd (elim (h z (Memᴰ.head refl)) [ ])

pub best_of-none :
    (float : Float64) (infos : List ServerInfo) → best_of float infos ≡ none → infos ≡ []
unfolding best_of
best_of-none float [] e = refl
best_of-none float (si ∷ infos) e = absurd (cc)
