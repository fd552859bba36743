-- ===== src/Router/Models.antt =====
-- An instance of each parameter of router/router.go's model: a sort, by insertion, and quotients to
-- six decimal places.
use mathlib.Core.List.Permᴰ
use llm_bridge.Router.Select.{ServerInfo}
use llm_bridge.Router.Groups.{ByDistance}
use llm_bridge.Router.Best.{Float64, IsIeee}
use llm_bridge.Router.Route.{Sort}
use llm_bridge.Base.{
  ℕ, ◌*◌, ◌/◌, ◌≡◌, refl, inl, inr, true, false, List, [], ◌∷◌, arith, ltb, if◌then◌else◌,
  Bool-cases, All, Permᴰ,
}
use llm_bridge.Base.Int.{ℤ, pos_part, ◌≤ℤ◌, leb_ℤ}

unfoldable pub insert_info : ServerInfo → List ServerInfo → List ServerInfo
insert_info si [] = si ∷ []
insert_info si (sj ∷ infos) =
    if leb_ℤ si.distance sj.distance then si ∷ sj ∷ infos else sj ∷ insert_info si infos

unfoldable pub insertion_sort : List ServerInfo → List ServerInfo
insertion_sort [] = []
insertion_sort (si ∷ infos) = insert_info si (insertion_sort infos)

insert_info-perm :
    (si : ServerInfo) (infos : List ServerInfo) → Permᴰ (insert_info si infos) (si ∷ infos)
unfolding insert_info
insert_info-perm si [] = Permᴰ.refl (si ∷ [])
insert_info-perm si (sj ∷ infos) = elim (Bool-cases (leb_ℤ si.distance sj.distance)) [
  | inl t ↦ rw t (Permᴰ.refl (si ∷ sj ∷ infos))
  | inr t ↦ rw t (Permᴰ.trans (Permᴰ.cons refl (insert_info-perm si infos)) (Permᴰ.swap refl refl))
]

pub insertion_sort-perm : (infos : List ServerInfo) → Permᴰ (insertion_sort infos) infos
unfolding insertion_sort
insertion_sort-perm [] = Permᴰ.nil
insertion_sort-perm (si ∷ infos) =
    Permᴰ.trans (insert_info-perm si (insertion_sort infos))
      (Permᴰ.cons refl (insertion_sort-perm infos))

insert_info-All :
    (d : ℤ) (si : ServerInfo) (infos : List ServerInfo)
    → d ≤ℤ si.distance
    → All (λ sj. d ≤ℤ sj.distance) infos
    → All (λ sj. d ≤ℤ sj.distance) (insert_info si infos)
unfolding insert_info
insert_info-All d si [] h a = (h, tt)
insert_info-All d si (sj ∷ infos) h a = elim (Bool-cases (leb_ℤ si.distance sj.distance)) [
  | inl t ↦ rw t (h, a)
  | inr t ↦ rw t (a.0, insert_info-All d si infos h a.1)
]

All-le :
    (c d : ℤ) (infos : List ServerInfo)
    → c ≤ℤ d
    → All (λ sj. d ≤ℤ sj.distance) infos
    → All (λ sj. c ≤ℤ sj.distance) infos
All-le c d [] h a = tt
All-le c d (sj ∷ infos) h a = (omega (arith, h, a.0), All-le c d infos h a.1)

insert_info-ByDistance :
    (si : ServerInfo) (infos : List ServerInfo)
    → ByDistance infos
    → ByDistance (insert_info si infos)
unfolding insert_info
insert_info-ByDistance si [] h = (tt, tt)
insert_info-ByDistance si (sj ∷ infos) h = elim (Bool-cases (leb_ℤ si.distance sj.distance)) [
  | inl t ↦
      let le : si.distance ≤ℤ sj.distance = ground arith in
      rw t ((le, All-le si.distance sj.distance infos le h.0), h)
  | inr t ↦
      rw t (
        insert_info-All sj.distance si infos (ground arith) h.0,
        insert_info-ByDistance si infos h.1,
      )
]

pub insertion_sort-ByDistance : (infos : List ServerInfo) → ByDistance (insertion_sort infos)
unfolding insertion_sort
insertion_sort-ByDistance [] = tt
insertion_sort-ByDistance (si ∷ infos) =
    insert_info-ByDistance si (insertion_sort infos) (insertion_sort-ByDistance infos)

abbrev pub by_insertion : Sort
by_insertion = record {
  sort = insertion_sort;
  sort-perm = insertion_sort-perm;
  sort-ByDistance = insertion_sort-ByDistance;
}

abbrev pub millionths : Float64
millionths = record { Float = ℕ; of_int = λ z. pos_part z; div = λ a b. a * 1000000 / b; lt = ltb }

pub not_ltb_trans : (x y z : ℕ) → ltb y x ≡ false → ltb z y ≡ false → ltb z x ≡ false
not_ltb_trans x y z h k = ground arith

pub ltb_asym : (x y : ℕ) → ltb x y ≡ true → ltb y x ≡ false
ltb_asym x y h = ground arith

abbrev pub millionths-IsIeee : IsIeee millionths
millionths-IsIeee = record {
  IsNumber = λ x. Unit {0};
  number = λ a b h. tt;
  asym = ltb_asym;
  not_lt_trans = λ x y z _ _ _. not_ltb_trans x y z;
}
