-- ===== src/Database/Vars.antt =====
-- The table of the variables, which is read and written by key: `upsert_var` of database/src/query/upsert.rs and
-- `select_var` of database/src/query/select.rs, through indexer/src/vars.rs. The key is the table's
-- primary key, so a table holds a key once.
use simply_kaspa_indexer.Prelude.{
  subst, ap, ◌≡◌, refl, Bool, false, Option, none, some, List, [], ◌∷◌, Bytes, if◌then◌else◌,
  Bool-cases, inl, inr,
}
use simply_kaspa_indexer.Models.{bytes_eq, bytes_eq-eq, bytes_eq_refl}

abbrev pub Vars : Type 0
Vars = List (Bytes × Bytes)

-- `INSERT … ON CONFLICT (key) DO UPDATE SET value = EXCLUDED.value`.
unfoldable pub upsert_var : Bytes → Bytes → Vars → Vars
upsert_var key value [] = (key, value) ∷ []
upsert_var key value ((k, v) ∷ vars) =
    let rest = upsert_var key value vars in
    if bytes_eq key k then (key, value) ∷ vars else (k, v) ∷ rest

-- `SELECT value … WHERE key = $1`; no row is an error of `fetch_one`.
unfoldable pub select_var : Bytes → Vars → Option Bytes
select_var key [] = none
select_var key ((k, v) ∷ vars) =
    let rest = select_var key vars in if bytes_eq key k then some v else rest

-- "block_checkpoint" and "vcp_checkpoint".
abbrev pub var_key_block_checkpoint : Bytes
var_key_block_checkpoint =
    b'b' ∷ b'l' ∷ b'o' ∷ b'c' ∷ b'k' ∷ b'_' ∷ b'c' ∷ b'h' ∷ b'e' ∷ b'c' ∷ b'k' ∷ b'p' ∷ b'o' ∷ b'i'
    ∷ b'n' ∷ b't' ∷ []

abbrev pub var_key_vcp_checkpoint : Bytes
var_key_vcp_checkpoint =
    b'v' ∷ b'c' ∷ b'p' ∷ b'_' ∷ b'c' ∷ b'h' ∷ b'e' ∷ b'c' ∷ b'k' ∷ b'p' ∷ b'o' ∷ b'i' ∷ b'n' ∷ b't'
    ∷ []

-- `answers` says whether the database answers the statement; every error is the same to the caller.
abbrev load : Bytes → Bool → Vars → Option Bytes
load key answers vars = if answers then select_var key vars else none

unfoldable pub load_block_checkpoint : Bool → Vars → Option Bytes
unfolding select_var
load_block_checkpoint answers vars = load var_key_block_checkpoint answers vars

unfoldable pub load_vcp_checkpoint : Bool → Vars → Option Bytes
unfolding select_var
load_vcp_checkpoint answers vars = load var_key_vcp_checkpoint answers vars

unfoldable pub save_block_checkpoint : Bytes → Vars → Vars
unfolding upsert_var
save_block_checkpoint block_hash vars = upsert_var var_key_block_checkpoint block_hash vars

unfoldable pub save_vcp_checkpoint : Bytes → Vars → Vars
unfolding upsert_var
save_vcp_checkpoint block_hash vars = upsert_var var_key_vcp_checkpoint block_hash vars

pub select-upsert_var :
    (key value : Bytes) (vars : Vars) → select_var key (upsert_var key value vars) ≡ some value
unfolding select_var upsert_var
select-upsert_var key value [] = rw (bytes_eq_refl key) refl
select-upsert_var key value ((k, v) ∷ vars) = elim (Bool-cases (bytes_eq key k)) [
  | inl same ↦ rw (same, bytes_eq_refl key) refl
  | inr other ↦ rw (other, other) (select-upsert_var key value vars)
]

pub select-upsert_var_other :
    (key other value : Bytes) (vars : Vars)
    → bytes_eq key other ≡ false
    → select_var key (upsert_var other value vars) ≡ select_var key vars
unfolding select_var upsert_var
select-upsert_var_other key other value [] ne = rw ne refl
select-upsert_var_other key other value ((k, v) ∷ vars) ne = elim (Bool-cases (bytes_eq other k)) [
  | inl same ↦
      let ne' = subst (λ x. bytes_eq key x ≡ false) (bytes_eq-eq other k same) ne in
      rw (same, ne', ne) refl
  | inr off ↦ rw off (
      ap (λ x. if bytes_eq key k then some v else x)
        (select-upsert_var_other key other value vars ne))
]
