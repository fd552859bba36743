-- ===== src/Router/Try.antt =====
-- The round-robin search of router/router.go: what it finds, and what it has passed over when it
-- finds nothing.
use native.Mathlib.Nat.{mod-lt, mod-eq_of_lt, add-mod_right}
use llm_bridge.Backend.Pool.{Pool, Conn, acquire, acquire-cases}
use llm_bridge.Router.Select.{ServerInfo, has_room, try_server, try_from}
use llm_bridge.Base.{
  ltb→lt, ℕ, zero, suc, ◌+◌, ◌-◌, ◌%◌, ◌≤◌, ◌<◌, ◌≡◌, refl, ap, subst, ◌∙◌, ◌≢◌, inl, inr, true,
  false, none, some, List, [], ◌∷◌, arith, ltb, Bool-cases, Option-cases, length, Memᴰ, get_elem?,
  get_elem?-Memᴰ, get_elem?-in_range, Memᴰ-get_elem?, lookup,
}

eq_of_not_ltb : (k j : ℕ) → k ≤ j → ltb k j ≡ false → j ≡ k
eq_of_not_ltb k j a h = ground arith

get_elem?-mod_none :
    {A : Type 0} (xs : List A) (i : ℕ) → get_elem? xs (i % length xs) ≡ none → xs ≡ []
get_elem?-mod_none [] i e = refl
get_elem?-mod_none (x ∷ xs) i e =
    let (a, found) = get_elem?-in_range (x ∷ xs) (i % length (x ∷ xs)) (mod-lt i (omega arith)) in
    absurd (cc)

-- The pool knows the server.
abbrev pub IsRegistered : Pool → ServerInfo → Type 0
IsRegistered p si = lookup si.url p.clients ≢ none

-- A search ends with a connection to one of these candidates, which had room; nothing but the one
-- `Acquire` has touched the pool.
pub record IsFound (group : List ServerInfo) (p : Pool) (c : Conn) (q : Pool) : Type 0 where
  pub info : ServerInfo
  pub listed : Memᴰ info group
  pub room : has_room info ≡ true
  pub known : IsRegistered p info
  pub target : c.server_id ≡ info.url
  pub pool : q ≡ (acquire none info.url p).0

try_server-IsFound :
    (si : ServerInfo) (group : List ServerInfo) (p : Pool) (c : Conn)
    → Memᴰ si group
    → (try_server none si p).1 ≡ some c
    → IsFound group p c (try_server none si p).0
unfolding try_server
try_server-IsFound si group p c m h = elim (Bool-cases (has_room si)) [
  | inr full ↦ absurd (ground (arith, h, full))
  | inl room ↦ elim (acquire-cases none si.url p) [
    | inl (missing, r) ↦ absurd (ground (arith, h, room, r))
    | inr (inr (bc, x, found, e, r)) ↦ absurd (cc)
    | inr (inl (bc, found, e, r)) ↦ record {
      info = si;
      listed = m;
      room = room;
      known = λ missing. cc;
      target = ground (arith, h, room, r);
      pool = ground (arith, h, room, r);
    }
  ]
]

-- A live context: a server that is passed over is full or unknown, and the pool is as it was.
try_server-none :
    (si : ServerInfo) (p : Pool)
    → (try_server none si p).1 ≡ none
    → ((try_server none si p).0 ≡ p) × (IsRegistered p si → has_room si ≡ false)
unfolding try_server
try_server-none si p h = elim (Bool-cases (has_room si)) [
  | inr full ↦ (ground (arith, full), λ k. full)
  | inl room ↦ elim (acquire-cases none si.url p) [
    | inl (missing, r) ↦ (ground (arith, room, r), λ k. absurd (k missing))
    | inr (inr (bc, x, found, e, r)) ↦ absurd (cc)
    | inr (inl (bc, found, e, r)) ↦ absurd (ground (arith, h, room, r))
  ]
]

module _ (group : List ServerInfo) (idx : ℕ) where
  -- One round of the loop: a hit ends it, a miss goes on.
  try_from-hit :
      (left k : ℕ) (p : Pool) {si : ServerInfo} {c : Conn}
      → get_elem? group ((idx + k) % length group) ≡ some si
      → (try_server none si p).1 ≡ some c
      → try_from none group idx (suc left) k p ≡ try_server none si p
  unfolding try_from try_server
  try_from-hit left k p e e' = rw (e, try_from, e') refl

  try_from-miss :
      (left k : ℕ) (p : Pool) {si : ServerInfo}
      → get_elem? group ((idx + k) % length group) ≡ some si
      → (try_server none si p).1 ≡ none
      → try_from none group idx (suc left) k p ≡ try_from none group idx left (k + 1) p
  unfolding try_from
  try_from-miss left k p {si} e e' =
      rw (e, try_from, e') (ap (try_from none group idx left (k + 1)) (try_server-none si p e').0)

  try_from-out :
      (left k : ℕ) (p : Pool)
      → get_elem? group ((idx + k) % length group) ≡ none
      → try_from none group idx (suc left) k p ≡ (p, none)
  unfolding try_from
  try_from-out left k p e = rw (e, try_from) refl

  pub try_from-IsFound :
      (left k : ℕ) (p : Pool) (c : Conn)
      → (try_from none group idx left k p).1 ≡ some c
      → IsFound group p c (try_from none group idx left k p).0
  unfolding try_from
  try_from-IsFound zero k p c h = absurd (cc)
  try_from-IsFound (suc left) k p c h =
      elim (Option-cases (get_elem? group ((idx + k) % length group))) [
        | inl e ↦ absurd (cc (try_from-out left k p e))
        | inr (si, e) ↦
            let m = get_elem?-Memᴰ group ((idx + k) % length group) e in
            elim (Option-cases (try_server none si p).1) [
              | inr (c', e') ↦
                  let step = try_from-hit left k p e e' in
                  rw step (try_server-IsFound si group p c m (rw step at h))
              | inl e' ↦
                  let step = try_from-miss left k p e e' in
                  rw step (try_from-IsFound left (k + 1) p c (rw step at h))
            ]
      ]

  -- A search that fails leaves the pool as it was, and has found every known server full that it
  -- has come by.
  try_from-none :
      (left k : ℕ) (p : Pool)
      → (try_from none group idx left k p).1 ≡ none
      → ((try_from none group idx left k p).0 ≡ p)
        × ((j : ℕ) (si : ServerInfo)
            → k ≤ j
            → j < k + left
            → get_elem? group ((idx + j) % length group) ≡ some si
            → IsRegistered p si
            → has_room si ≡ false)
  try_from-none zero k p h = (unfold try_from in refl, λ j si a b. absurd (omega arith))
  try_from-none (suc left) k p h =
      elim (Option-cases (get_elem? group ((idx + k) % length group))) [
        | inl e ↦ (
          ap (λ r. r.0) (try_from-out left k p e),
          λ j si a b g known. absurd (
              cc (
                ap (λ xs. get_elem? xs ((idx + j) % length group))
                  (get_elem?-mod_none group (idx + k) e))),
        )
        | inr (si, e) ↦ elim (Option-cases (try_server none si p).1) [
          | inr (c', e') ↦ absurd (cc (try_from-hit left k p e e'))
          | inl e' ↦
              let step = try_from-miss left k p e e' in
              let (same, full) = try_from-none left (k + 1) p (rw step at h) in
              (
                ap (λ r. r.0) step ∙ same,
                λ j sj a b g known. elim (Bool-cases (ltb k j)) [
                  | inl more ↦ full j sj (omega (arith, ltb→lt k j more)) (omega arith) g known
                  | inr last ↦
                      let at_k =
                        ap (λ i. get_elem? group ((idx + i) % length group))
                          (eq_of_not_ltb k j a last) in
                      let same : si ≡ sj = cc (at_k, e, g) in
                      subst (λ s. IsRegistered p s → has_room s ≡ false) same
                        (try_server-none si p e').1 known
                ],
              )
        ]
      ]

-- Every index of a list is met on the way round.
round_index : (n idx i : ℕ) → idx < n → i < n → (k : ℕ) × (k < n) × ((idx + k) % n ≡ i)
round_index n idx i a b = elim (Bool-cases (ltb i idx)) [
  | inl before ↦
      let h = ltb→lt i idx before in
      (n - idx + i, omega arith, ap (λ m. m % n) (omega arith) ∙ wrapped)
  | inr after ↦ (i - idx, ground arith, ap (λ m. m % n) (ground arith) ∙ mod-eq_of_lt b)
]
  where
    wrapped : (i + n) % n ≡ i
    wrapped = add-mod_right i n ∙ mod-eq_of_lt b

-- A whole round that fails has found every known server of the group full.
pub try_group-none :
    (group : List ServerInfo) (idx : ℕ) (p : Pool)
    → idx < length group
    → (try_from none group idx (length group) 0 p).1 ≡ none
    → ((try_from none group idx (length group) 0 p).0 ≡ p)
      × ((si : ServerInfo) → Memᴰ si group → IsRegistered p si → has_room si ≡ false)
try_group-none group idx p a h =
    let (same, full) = try_from-none group idx (length group) 0 p h in
    (
      same,
      λ si m known.
          let (i, b, e) = Memᴰ-get_elem? group m in
          let (k, c, r) = round_index (length group) idx i a b in
          full k si (omega arith) (omega arith) (ap (get_elem? group) r ∙ e) known,
    )

try_server-room :
    (si : ServerInfo) (p : Pool)
    → has_room si ≡ true
    → IsRegistered p si
    → try_server none si p ≡ ((acquire none si.url p).0, some (record { server_id = si.url }))
unfolding try_server
try_server-room si p room known = elim (acquire-cases none si.url p) [
  | inl (missing, r) ↦ absurd (known missing)
  | inr (inr (bc, x, found, e, r)) ↦ absurd (cc)
  | inr (inl (bc, found, e, r)) ↦ ground (arith, room, r)
]

-- The first server that a round tries: the one at the start index, where it has room.
pub try_group-first :
    (group : List ServerInfo) (idx : ℕ) (p : Pool) (si : ServerInfo)
    → idx < length group
    → get_elem? group idx ≡ some si
    → has_room si ≡ true
    → IsRegistered p si
    → try_from none group idx (length group) 0 p
      ≡ ((acquire none si.url p).0, some (record { server_id = si.url }))
try_group-first group idx p si a e room known =
    let start : (idx + 0) % length group ≡ idx =
      ap (λ m. m % length group) (omega arith) ∙ mod-eq_of_lt a in
    let hit = try_server-room si p room known in
    ap (λ n. try_from none group idx n 0 p) (omega arith)
    ∙ try_from-hit group idx (length group - 1) 0 p (ap (get_elem? group) start ∙ e)
        (ap (λ r. r.1) hit)
    ∙ hit
