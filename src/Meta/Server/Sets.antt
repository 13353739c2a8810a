-- ===== src/Meta/Server/Sets.antt =====
-- awex/meta/meta_server.py: `set.add`, where the equality of the objects is what tells them apart.
use awex.Prelude.{◌≡◌, ◌↔◌, ◌⊎◌, sym, ◌∙◌, true, List, [], ◌∷◌, In, Bool-cases, inl, inr}
use awex.Meta.Server.State.{Codec}
use awex.Meta.Server.Handlers.{add_element}

-- No object stands twice.
abbrev pub AreDistinct : {Obj : Type 0} → List Obj → Type 0
AreDistinct [] = Unit
AreDistinct (obj ∷ objs) = (In obj objs → ⊥) × AreDistinct objs

module _ {Bytes Obj Json : Type 0} (lib : Codec Bytes Obj Json)
    (equal : (a b : Obj) → (lib.same a b ≡ true) ↔ (a ≡ b)) where
  pub In-add_element :
      (x obj : Obj) (objs : List Obj) → In x (add_element lib obj objs) ↔ ((x ≡ obj) ⊎ In x objs)
  In-add_element x obj [] = (λ h. h, λ h. h)
  In-add_element x obj (o ∷ objs) = elim (Bool-cases (lib.same o obj)) [
    | inl there ↦
        let e : o ≡ obj = (equal o obj).0 there in
        rw there (λ h. inr h, λ h. elim h [ inl same ↦ inl (same ∙ sym e) | inr old ↦ old ])
    | inr other ↦
        let ih = In-add_element x obj objs in
        rw other (
          λ h. elim h [
            | inl first ↦ inr (inl first)
            | inr rest ↦ elim (ih.0 rest) [ inl new ↦ inl new | inr old ↦ inr (inr old) ]
          ],
          λ h. elim h [
            | inl new ↦ inr (ih.1 (inl new))
            | inr old ↦ elim old [ inl first ↦ inl first | inr rest ↦ inr (ih.1 (inr rest)) ]
          ],
        )
  ]

  pub add_element-AreDistinct :
      (obj : Obj) (objs : List Obj) → AreDistinct objs → AreDistinct (add_element lib obj objs)
  add_element-AreDistinct obj [] d = (λ h. h, tt)
  add_element-AreDistinct obj (o ∷ objs) (fresh, d) = elim (Bool-cases (lib.same o obj)) [
    | inl there ↦ rw there (fresh, d)
    | inr other ↦ rw other (
      λ h. elim ((In-add_element o obj objs).0 h) [
        | inl same ↦ let yes = (equal o obj).1 same in cc
        | inr old ↦ fresh old
      ],
      add_element-AreDistinct obj objs d,
    )
  ]
