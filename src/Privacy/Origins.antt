-- ===== src/Privacy/Origins.antt =====
-- The versions that a user contributes, each once: `select distinct` in `eraseAccount` of
-- src/infrastructure/privacy/sqlite-privacy-repository.ts.
use recruiting_os.Common.{
  ◌≡◌, ◌∙◌, ◌∷◌, ◌⊎◌, [], sym, ap, subst, refl, inl, inr, true, str_eq, str_eq_sound, same_triple,
  both_true, any, In, delete-In, Bool-cases, map, List, Bool,
}
use recruiting_os.Domain.{SourceType}
use recruiting_os.Sources.Rows.{source_type_name}
use recruiting_os.Privacy.Rows.{is_private}
use recruiting_os.Privacy.Erase.{Origin, distinct_by, same_origin}

private_name :
    (t : SourceType)
    → is_private t
      ≡ any (λ name. str_eq (source_type_name t) name) ("gmail" ∷ "groupme" ∷ "screenshot" ∷ [])
private_name SourceType.gmail = refl
private_name SourceType.groupme = refl
private_name SourceType.instagram = refl
private_name SourceType.linkedin = refl
private_name SourceType.website = refl
private_name SourceType.bio_link = refl
private_name SourceType.application = refl
private_name SourceType.screenshot = refl
private_name SourceType.heel_life = refl

-- Every element is there, or one that is the same.
pub distinct_by-In :
    {A : Type 0} (same : A → A → Bool)
    (chain : (x y z : A) → same x y ≡ true → same y z ≡ true → same x z ≡ true) (xs : List A)
    (a : A)
    → In a xs
    → (b : A) × In b (distinct_by same xs) × ((b ≡ a) ⊎ (same b a ≡ true))
unfolding distinct_by
distinct_by-In same chain [] a m = elim m [ ]
distinct_by-In same chain (x ∷ xs) a (inl e) = (x, inl refl, inl e)
distinct_by-In same chain (x ∷ xs) a (inr m) =
    let (b, n, h) = distinct_by-In same chain xs a m in
    elim (Bool-cases (same x b)) [
      | inr t ↦ (b, inr (delete-In (same x) (distinct_by same xs) b n t), h)
      | inl t ↦ (
        x,
        inl refl,
        inr (elim h [ inl e ↦ subst (λ k. same x k ≡ true) e t | inr u ↦ chain x b a t u ]),
      )
    ]

pub same_origin_trans :
    (x y z : Origin) → same_origin x y ≡ true → same_origin y z ≡ true → same_origin x z ≡ true
same_origin_trans x y z t u =
    same_triple x.id x.organization_id (source_type_name x.source_type) y.id y.organization_id
      (source_type_name y.source_type) t z.id z.organization_id (source_type_name z.source_type)
    ∙ u

-- What two equal origins share.
pub same_origin_lem :
    (x y : Origin)
    → (x ≡ y) ⊎ (same_origin x y ≡ true)
    → (x.id ≡ y.id) × (is_private x.source_type ≡ is_private y.source_type)
same_origin_lem x y (inl e) = (ap (λ k. k.id) e, ap (λ k. is_private k.source_type) e)
same_origin_lem x y (inr t) =
    let (a, bc) = both_true (str_eq x.id y.id) _ t in
    let (b, c) = both_true (str_eq x.organization_id y.organization_id) _ bc in
    (
      str_eq_sound x.id y.id a,
      private_name x.source_type
          ∙ ap (λ n. any (λ name. str_eq n name) ("gmail" ∷ "groupme" ∷ "screenshot" ∷ []))
              (str_eq_sound (source_type_name x.source_type) (source_type_name y.source_type) c)
          ∙ sym (private_name y.source_type),
    )

pub In-map : {A B : Type 0} (f : A → B) (xs : List A) (a : A) → In a xs → In (f a) (map f xs)
In-map f [] a m = elim m [ ]
In-map f (x ∷ xs) a (inl e) = inl (ap f e)
In-map f (x ∷ xs) a (inr m) = inr (In-map f xs a m)
