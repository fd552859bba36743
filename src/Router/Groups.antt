-- ===== src/Router/Groups.antt =====
-- The groups of equal distance that router/router.go cuts its sorted candidates into, and the search
-- through them.
use native.Mathlib.Nat.{mod-lt}
use llm_bridge.Backend.Pool.{Pool, Conn}
use llm_bridge.Router.Select.{
  ServerInfo, same_distance, has_room, groups_from, groups, try_from, try_groups, start_index,
}
use llm_bridge.Router.Try.{IsRegistered, IsFound, try_from-IsFound, try_group-none}
use llm_bridge.Base.{
  ℕ, ◌+◌, ◌<◌, String, ◌≡◌, refl, sym, ap, ◌∙◌, inl, inr, false, none, some, List, [], ◌∷◌, ◌++◌,
  append_assoc, arith, Bool-cases, Option-cases, length, All, All-append, Memᴰ, Memᴰ-append,
  Memᴰ-append_right, All-Memᴰ, concat, length-append, Dict, insert,
}
use llm_bridge.Base.Int.{ℤ, ◌≤ℤ◌}

abbrev pub ByDistance : List ServerInfo → Type 0
ByDistance [] = Unit {0}
ByDistance (si ∷ infos) = All (λ sj. si.distance ≤ℤ sj.distance) infos × ByDistance infos

pub ByDistance-append :
    (xs ys : List ServerInfo) {x y : ServerInfo}
    → ByDistance (xs ++ ys)
    → Memᴰ x xs
    → Memᴰ y ys
    → x.distance ≤ℤ y.distance
ByDistance-append [] ys s m n = elim m [ ]
ByDistance-append (z ∷ xs) ys {x} {y} s (Memᴰ.head e) n =
    rw e (All-Memᴰ (λ sj. z.distance ≤ℤ sj.distance) (xs ++ ys) (Memᴰ-append_right xs ys n) s.0)
ByDistance-append (z ∷ xs) ys s (Memᴰ.tail m) n = ByDistance-append xs ys s.1 m n

-- All members of a group have one distance, and there is one.
pub record IsGroup (g : List ServerInfo) : Type 0 where
  pub distance : ℤ
  pub same : All (λ si. si.distance ≡ distance) g
  pub nonempty : 0 < length g

groups_from-concat :
    (first : ServerInfo) (cur infos : List ServerInfo)
    → concat (groups_from first cur infos) ≡ cur ++ infos
unfolding groups_from
groups_from-concat first cur [] = refl
groups_from-concat first cur (si ∷ infos) = elim (Bool-cases (same_distance si first)) [
  | inl t ↦
      rw t (groups_from-concat first (cur ++ si ∷ []) infos ∙ append_assoc cur (si ∷ []) infos)
  | inr t ↦ rw t (ap (λ xs. cur ++ xs) (groups_from-concat si (si ∷ []) infos))
]

-- The groups hold the candidates, each once and in their order.
pub concat-groups : (infos : List ServerInfo) → concat (groups infos) ≡ infos
unfolding groups
concat-groups [] = refl
concat-groups (si ∷ infos) = groups_from-concat si (si ∷ []) infos

groups_from-IsGroup :
    (first : ServerInfo) (cur infos : List ServerInfo)
    → All (λ si. si.distance ≡ first.distance) cur
    → 0 < length cur
    → All IsGroup (groups_from first cur infos)
unfolding groups_from
groups_from-IsGroup first cur [] same full =
    (record { distance = first.distance; same = same; nonempty = full }, tt)
groups_from-IsGroup first cur (si ∷ infos) same full = elim (Bool-cases (same_distance si first)) [
  | inl t ↦ rw t (
      groups_from-IsGroup first (cur ++ si ∷ []) infos
        (All-append _ cur (si ∷ []) same (ground arith, tt))
        (omega (arith, length-append cur (si ∷ []))))
  | inr t ↦ rw t (
    record { distance = first.distance; same = same; nonempty = full },
    groups_from-IsGroup si (si ∷ []) infos (refl, tt) (omega arith),
  )
]

pub groups-IsGroup : (infos : List ServerInfo) → All IsGroup (groups infos)
unfolding groups
groups-IsGroup [] = tt
groups-IsGroup (si ∷ infos) = groups_from-IsGroup si (si ∷ []) infos (refl, tt) (omega arith)

-- Where a search through groups has ended: in a group all whose predecessors are full.
pub record IsPlaced (gs : List (List ServerInfo)) (p : Pool) (c : Conn) (q : Pool) : Type 0 where
  pub before : List (List ServerInfo)
  pub group : List ServerInfo
  pub after : List (List ServerInfo)
  pub split : gs ≡ before ++ group ∷ after
  pub found : IsFound group p c q
  pub full : (si : ServerInfo) → Memᴰ si (concat before) → IsRegistered p si → has_room si ≡ false

IsPlaced-cons :
    (group : List ServerInfo) {gs : List (List ServerInfo)} {p : Pool} {c : Conn} {q : Pool}
    → ((si : ServerInfo) → Memᴰ si group → IsRegistered p si → has_room si ≡ false)
    → IsPlaced gs p c q
    → IsPlaced (group ∷ gs) p c q
IsPlaced-cons group full l = record {
  before = group ∷ l.before;
  group = l.group;
  after = l.after;
  split = ap (λ xs. group ∷ xs) l.split;
  found = l.found;
  full = λ si m known. elim (Memᴰ-append group (concat l.before) m) [
    | inl n ↦ full si n known
    | inr n ↦ l.full si n known
  ];
}

module _ (model : String) where
  try_groups-nil : (rr : Dict ℕ) (p : Pool) → try_groups none model [] rr p ≡ (rr, p, none)
  unfolding try_groups
  try_groups-nil rr p = refl

  pub try_groups-hit :
      (group : List ServerInfo) (gs : List (List ServerInfo)) (rr : Dict ℕ) (p : Pool) {c : Conn}
      → (try_from none group (start_index model group rr) (length group) 0 p).1 ≡ some c
      → try_groups none model (group ∷ gs) rr p ≡ (
        insert model (start_index model group rr + 1) rr,
        (try_from none group (start_index model group rr) (length group) 0 p).0,
        some c,
      )
  unfolding try_groups
  try_groups-hit group gs rr p e = rw (e, try_groups) refl

  try_groups-miss :
      (group : List ServerInfo) (gs : List (List ServerInfo)) (rr : Dict ℕ) (p : Pool)
      → IsGroup group
      → (try_from none group (start_index model group rr) (length group) 0 p).1 ≡ none
      → (try_groups none model (group ∷ gs) rr p
          ≡ try_groups none model gs (insert model (start_index model group rr + 1) rr) p)
        × ((si : ServerInfo) → Memᴰ si group → IsRegistered p si → has_room si ≡ false)
  unfolding try_groups
  try_groups-miss group gs rr p g e =
      let (same, full) =
        try_group-none group (start_index model group rr) p (mod-lt _ g.nonempty) e in
      (
        rw (e, try_groups)
            (ap (try_groups none model gs (insert model (start_index model group rr + 1) rr)) same),
        full,
      )

  -- A search that succeeds has found all nearer groups full.
  pub try_groups-IsPlaced :
      (gs : List (List ServerInfo)) (rr : Dict ℕ) (p : Pool) (c : Conn)
      → All IsGroup gs
      → (try_groups none model gs rr p).2 ≡ some c
      → IsPlaced gs p c (try_groups none model gs rr p).1
  try_groups-IsPlaced [] rr p c g h = absurd (cc (try_groups-nil rr p))
  try_groups-IsPlaced (group ∷ gs) rr p c g h =
      elim (Option-cases (try_from none group (start_index model group rr) (length group) 0 p).1) [
        | inr (c', e) ↦
            let step = try_groups-hit group gs rr p e in
            let same : some c' ≡ some c = ap (λ r. r.2) (sym step) ∙ h in
            rw step (record {
              before = [];
              group = group;
              after = gs;
              split = refl;
              found =
                  try_from-IsFound group (start_index model group rr) (length group) 0 p c
                    (e ∙ same);
              full = λ si m. elim m [ ];
            })
        | inl e ↦
            let (step, full) = try_groups-miss group gs rr p g.0 e in
            rw step (
              IsPlaced-cons group full (
                try_groups-IsPlaced gs (insert model (start_index model group rr + 1) rr) p c g.1
                  (ap (λ r. r.2) (sym step) ∙ h)))
      ]

  -- A search that fails has found every known candidate full, and leaves the pool as it was.
  pub try_groups-none :
      (gs : List (List ServerInfo)) (rr : Dict ℕ) (p : Pool)
      → All IsGroup gs
      → (try_groups none model gs rr p).2 ≡ none
      → ((try_groups none model gs rr p).1 ≡ p)
        × ((si : ServerInfo) → Memᴰ si (concat gs) → IsRegistered p si → has_room si ≡ false)
  try_groups-none [] rr p g h = (unfold try_groups in refl, λ si m. elim m [ ])
  try_groups-none (group ∷ gs) rr p g h =
      elim (Option-cases (try_from none group (start_index model group rr) (length group) 0 p).1) [
        | inr (c', e) ↦ absurd (cc (try_groups-hit group gs rr p e))
        | inl e ↦
            let (step, full) = try_groups-miss group gs rr p g.0 e in
            let (same, rest) =
              try_groups-none gs (insert model (start_index model group rr + 1) rr) p g.1
                (rw step at h) in
            (
              ap (λ r. r.1) step ∙ same,
              λ si m known. elim (Memᴰ-append group (concat gs) m) [
                | inl n ↦ full si n known
                | inr n ↦ rest si n known
              ],
            )
      ]
