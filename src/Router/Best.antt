-- ===== src/Router/Best.antt =====
-- The fallback `best_effort` of router/router.go: the server with the least ratio of load to
-- capacity. Go's float64 is a parameter.
use mathlib.Core.Option.{some-injective}
use llm_bridge.Router.Select.{ServerInfo}
use llm_bridge.Base.{
  ◌≡◌, refl, subst, ◌∙◌, ◌⊎◌, inl, inr, Bool, true, false, Option, none, some, List, [], ◌∷◌,
  if◌then◌else◌, Bool-cases, All, Memᴰ,
}
use llm_bridge.Base.Int.{ℤ, pos, ◌≤ℤ◌}

-- What the router uses of float64: the conversion of integers, the quotient and `<`.
pub record Float64 : Type 1 where
  pub Float : Type 0
  pub of_int : ℤ → Float
  pub div : Float → Float → Float
  pub lt : Float → Float → Bool

-- What IEEE 754 says of them: `<` is a strict weak order on the values that are not NaN, and the
-- quotient of two integers of which the second is positive is not NaN.
pub record IsIeee (f : Float64) : Type 1 where
  pub IsNumber : f.Float → Type 0
  pub number : (a b : ℤ) → pos 1 ≤ℤ b → IsNumber (f.div (f.of_int a) (f.of_int b))
  pub asym : (x y : f.Float) → f.lt x y ≡ true → f.lt y x ≡ false
  pub not_lt_trans :
      (x y z : f.Float)
      → IsNumber x
      → IsNumber y
      → IsNumber z
      → f.lt y x ≡ false
      → f.lt z y ≡ false
      → f.lt z x ≡ false

module _ (f : Float64) where
  unfoldable pub ratio : ServerInfo → f.Float
  ratio si = f.div (f.of_int si.inflight) (f.of_int si.max_conn)

  -- The loop over the candidates, with the best one so far.
  -- One round: the candidate takes over if its ratio is smaller.
  unfoldable pub better : ServerInfo → ServerInfo → ServerInfo
  better best si = if f.lt (ratio si) (ratio best) then si else best

  unfoldable pub best_from : ServerInfo → List ServerInfo → ServerInfo
  best_from best [] = best
  best_from best (si ∷ infos) = best_from (better best si) infos

  unfoldable pub best_of : List ServerInfo → Option ServerInfo
  unfolding best_from
  best_of [] = none
  best_of (si ∷ infos) = some (best_from si infos)

  module _ (ieee : IsIeee f) where
    lt_irrefl : (x : f.Float) → f.lt x x ≡ false
    lt_irrefl x = elim (Bool-cases (f.lt x x)) [ inl t ↦ ieee.asym x x t | inr t ↦ t ]

    abbrev number_of : (si : ServerInfo) → pos 1 ≤ℤ si.max_conn → ieee.IsNumber (ratio si)
    unfolding ratio
    number_of si h = ieee.number si.inflight si.max_conn h

    -- No candidate has a smaller ratio.
    abbrev pub IsLeast : List ServerInfo → ServerInfo → Type 0
    IsLeast infos best = (si : ServerInfo) → Memᴰ si infos → f.lt (ratio si) (ratio best) ≡ false

    -- The better of the first two candidates stands for both.
    IsLeast-step :
        (best si next b : ServerInfo) (infos : List ServerInfo)
        → ieee.IsNumber (ratio best)
        → ieee.IsNumber (ratio si)
        → ieee.IsNumber (ratio next)
        → ieee.IsNumber (ratio b)
        → f.lt (ratio best) (ratio next) ≡ false
        → f.lt (ratio si) (ratio next) ≡ false
        → IsLeast (next ∷ infos) b
        → IsLeast (best ∷ si ∷ infos) b
    IsLeast-step best si next b infos nb ns nn n h k l x (Memᴰ.head e) =
        rw e (ieee.not_lt_trans _ _ _ n nn nb (l next (Memᴰ.head refl)) h)
    IsLeast-step best si next b infos nb ns nn n h k l x (Memᴰ.tail (Memᴰ.head e)) =
        rw e (ieee.not_lt_trans _ _ _ n nn ns (l next (Memᴰ.head refl)) k)
    IsLeast-step best si next b infos nb ns nn n h k l x (Memᴰ.tail (Memᴰ.tail m)) =
        l x (Memᴰ.tail m)

    Memᴰ-step :
        {b next : ServerInfo} (best si : ServerInfo) (infos : List ServerInfo)
        → (next ≡ best) ⊎ (next ≡ si)
        → Memᴰ b (next ∷ infos)
        → Memᴰ b (best ∷ si ∷ infos)
    Memᴰ-step best si infos (inl e) (Memᴰ.head h) = Memᴰ.head (h ∙ e)
    Memᴰ-step best si infos (inr e) (Memᴰ.head h) = Memᴰ.tail (Memᴰ.head (h ∙ e))
    Memᴰ-step best si infos e (Memᴰ.tail m) = Memᴰ.tail (Memᴰ.tail m)

    -- What the search promises of its result.
    pub record IsBest (infos : List ServerInfo) (best : ServerInfo) : Type 0 where
      pub capacity : pos 1 ≤ℤ best.max_conn
      pub listed : Memᴰ best infos
      pub least : IsLeast infos best

    better-cases :
        (best si : ServerInfo)
        → ((better best si ≡ best) ⊎ (better best si ≡ si))
          × (f.lt (ratio best) (ratio (better best si)) ≡ false)
          × (f.lt (ratio si) (ratio (better best si)) ≡ false)
    unfolding better
    better-cases best si = elim (Bool-cases (f.lt (ratio si) (ratio best))) [
      | inl t ↦ rw t (inr refl, ieee.asym _ _ t, lt_irrefl _)
      | inr t ↦ rw t (inl refl, lt_irrefl _, t)
    ]

    capacity_of :
        {best si next : ServerInfo}
        → (next ≡ best) ⊎ (next ≡ si)
        → pos 1 ≤ℤ best.max_conn
        → pos 1 ≤ℤ si.max_conn
        → pos 1 ≤ℤ next.max_conn
    capacity_of (inl e) b h = rw e b
    capacity_of (inr e) b h = rw e h

    best_from-IsBest :
        (best : ServerInfo) (infos : List ServerInfo)
        → All (λ si. pos 1 ≤ℤ si.max_conn) (best ∷ infos)
        → IsBest (best ∷ infos) (best_from best infos)
    unfolding best_from
    best_from-IsBest best [] h = record {
      capacity = h.0;
      listed = Memᴰ.head refl;
      least = λ si m. only m;
    }
      where
        only : {si : ServerInfo} → Memᴰ si (best ∷ []) → f.lt (ratio si) (ratio best) ≡ false
        only (Memᴰ.head e) = rw e (lt_irrefl (ratio best))
        only (Memᴰ.tail m) = elim m [ ]
    best_from-IsBest best (si ∷ infos) h =
        let (e, below, below') = better-cases best si in
        let c = capacity_of e h.0 h.1.0 in
        let b = best_from-IsBest (better best si) infos (c, h.1.1) in
        record {
          capacity = b.capacity;
          listed = Memᴰ-step best si infos e b.listed;
          least =
              IsLeast-step best si (better best si) _ infos (number_of best h.0)
                (number_of si h.1.0) (number_of _ c) (number_of _ b.capacity) below below' b.least;
        }

    -- Where all capacities are positive, the server that `best_effort` settles on is a candidate, and
    -- no candidate has a smaller ratio of load to capacity.
    pub best_of-IsBest :
        (infos : List ServerInfo) {best : ServerInfo}
        → All (λ si. pos 1 ≤ℤ si.max_conn) infos
        → best_of infos ≡ some best
        → IsBest infos best
    unfolding best_of
    best_of-IsBest [] h e = absurd (cc)
    best_of-IsBest (si ∷ infos) {best} h e =
        subst (IsBest (si ∷ infos)) (some-injective (best_from si infos) best e)
          (best_from-IsBest si infos h)
