-- ===== src/Transfer/Stages/Mapping.antt =====
-- awex/transfer/nccl_comm.py: `validate_rank_mappings`.
use awex.Prelude.{
  ℕ, ◌≡◌, refl, sym, ap, ◌∙◌, ◌↔◌, Bool, true, false, Option, none, some, List, [], ◌∷◌, ◌==◌,
  if◌then◌else◌, Bool-cases, inl, inr, ==→eq,
}
use awex.Prelude.Outcome.{Outcome, ok, ◌>>◌, require, require-eq-ok, bind-eq-ok}

-- What the exchange raises: its `ValueError`s, `KeyError`s, assertions and `RuntimeError`s.
pub data StageError : Type 0 where
  inconsistent_mapping : StageError
  key_error : StageError
  rank_unmatched : StageError
  inconsistent_send_plan : StageError
  inconsistent_recv_plan : StageError
  copy_mismatch : StageError
  ops_in_first_stage : StageError
  not_invertible : StageError

-- A `dict` of ranks.
abbrev pub RankMapping : Type 0
RankMapping = List (ℕ × ℕ)

abbrev pub image : ℕ → RankMapping → Option ℕ
image rank [] = none
image rank ((from, to) ∷ mapping) = if from == rank then some to else image rank mapping

abbrev pub is_some_rank : ℕ → Option ℕ → Bool
is_some_rank rank none = false
is_some_rank rank (some r) = r == rank

-- Every entry of one mapping is undone by the other.
unfoldable pub validate_inverse : RankMapping → RankMapping → Outcome StageError (Unit {0})
validate_inverse [] inverse = ok tt
validate_inverse ((from, to) ∷ mapping) inverse = do
  require (is_some_rank from (image to inverse)) inconsistent_mapping
  validate_inverse mapping inverse

unfoldable pub validate_rank_mappings : RankMapping → RankMapping → Outcome StageError (Unit {0})
validate_rank_mappings train_to_infer infer_to_train = do
  validate_inverse train_to_infer infer_to_train
  validate_inverse infer_to_train train_to_infer

is_some_rank-eq : (rank : ℕ) (o : Option ℕ) → is_some_rank rank o ≡ true → o ≡ some rank
is_some_rank-eq rank none h = cc
is_some_rank-eq rank (some r) h = ap some (==→eq r rank h)

image-validate_inverse :
    (mapping inverse : RankMapping) (from to : ℕ)
    → validate_inverse mapping inverse ≡ ok tt
    → image from mapping ≡ some to
    → image to inverse ≡ some from
unfolding validate_inverse
image-validate_inverse [] inverse from to h e = cc
image-validate_inverse ((a, b) ∷ mapping) inverse from to h e =
    let (back, rest) =
      require-eq-ok (is_some_rank a (image b inverse)) inconsistent_mapping
        (validate_inverse mapping inverse) h in
    elim (Bool-cases (a == from)) [
      | inl here ↦
          let same : a ≡ from = ==→eq a from here in
          let same_image : some b ≡ some to = sym (rw here refl) ∙ e in
          let undone = is_some_rank-eq a (image b inverse) back in cc (same, same_image, undone)
      | inr later ↦ image-validate_inverse mapping inverse from to rest (rw later at e)
    ]

-- Mappings that pass are inverse to each other: a training rank has an inference rank just if that
-- one has it.
pub image-validate_rank_mappings :
    (train_to_infer infer_to_train : RankMapping) (train_rank infer_rank : ℕ)
    → validate_rank_mappings train_to_infer infer_to_train ≡ ok tt
    → (image train_rank train_to_infer ≡ some infer_rank)
      ↔ (image infer_rank infer_to_train ≡ some train_rank)
unfolding validate_rank_mappings
image-validate_rank_mappings f g t i h =
    let (_, first, second) = bind-eq-ok (validate_inverse f g) _ h in
    (image-validate_inverse f g t i first, image-validate_inverse g f i t second)
