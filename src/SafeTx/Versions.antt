-- ===== src/SafeTx/Versions.antt =====
-- `is_version_breaking_signatures` of safe_transaction_service/history/indexers/tx_processor.py.
use safe_transaction_service.Common.{
  Bool, true, false, not, ◌||◌, List, [], ◌∷◌, ◌≡◌, refl, ◌∙◌, arith, Bool-cases, inl, inr,
  if◌then◌else◌,
}
use safe_transaction_service.SafeTx.{
  Version, version_lt, crosses, is_version_breaking_signatures, breaking_versions,
}

-- One is below the version and the other is not.
abbrev pub separates : Version → Version → Version → Bool
separates b v w = if version_lt v b then not (version_lt w b) else version_lt w b

abbrev pub any_separates : List Version → Version → Version → Bool
any_separates [] v w = false
any_separates (b ∷ bs) v w = separates b v w || any_separates bs v w

version_lt_total :
    (u v w : Version) → version_lt u v ≡ false → version_lt u w ≡ true → version_lt v w ≡ true
unfolding version_lt
version_lt_total u v w h k = ground arith

crosses-separates :
    (old new : Version) (bs : List Version)
    → version_lt new old ≡ false
    → crosses old new bs ≡ any_separates bs old new
unfolding crosses
crosses-separates old new [] h = refl
crosses-separates old new (b ∷ bs) h =
    let rest = crosses-separates old new bs h in
    let total = version_lt_total new old b h in ground arith

any_separates_comm :
    (v w : Version) (bs : List Version) → any_separates bs v w ≡ any_separates bs w v
any_separates_comm v w [] = refl
any_separates_comm v w (b ∷ bs) = let rest = any_separates_comm v w bs in ground arith

version_lt_asym : (v w : Version) → version_lt v w ≡ true → version_lt w v ≡ false
unfolding version_lt
version_lt_asym v w h = ground arith

-- Signatures break between two versions, in either order, exactly if one of them is below 1.0.0 and the
-- other is not, or one is below 1.3.0 and the other is not.
pub is_version_breaking_signatures_lem :
    (v w : Version) → is_version_breaking_signatures v w ≡ any_separates breaking_versions v w
unfolding is_version_breaking_signatures
is_version_breaking_signatures_lem v w = elim (Bool-cases (version_lt w v)) [
  | inl e ↦ rw e (
      crosses-separates w v breaking_versions (version_lt_asym w v e)
      ∙ any_separates_comm w v breaking_versions)
  | inr e ↦ rw e (crosses-separates v w breaking_versions e)
]
