-- ===== src/Commitment/Scarce.antt =====
-- ProfessionProgressionScarceRequirements of
-- `src/Bot/Economy/PlayerbotMaterialCommitmentEncoding.cpp`: what a craft lacks and no vendor sells.
pub mod Valid
use mod_playerbots_economy.Prelude.{
  ℕ, ◌+◌, ◌-◌, ◌*◌, ◌/◌, Bool, not, ◌||◌, List, [], ◌∷◌, Option, some, is_empty, ltb, leb,
  if◌then◌else◌, ◌==◌, nat_eq, text_eq,
}
use mod_playerbots_economy.Commitment.Types.{MaterialRequirement}
use mod_playerbots_economy.Commitment.Encoding.{u64}
use mod_playerbots_economy.Commitment.Outcome.{checked_add}
use mod_playerbots_economy.Commitment.Path.{u32_max, ◌>>=◌, ◌>>◌, require}
use mod_playerbots_economy.Commitment.Validity.{requirements_eq, owner_kind_eq}

pub record ProfessionProgressionReagentFact : Type 0 where
  pub item_id : ℕ
  pub per_craft_quantity : ℕ
  pub ordinary_vendor_available : Bool
  pub milling_input_item_id : ℕ
  pub owned_count : ℕ

-- `std::map<std::uint32_t, ReagentBill>`, in the order of its keys.
abbrev pub Bill : Type 0
Bill = List (ℕ × ℕ)

unfoldable pub billed_at : ℕ → Bill → ℕ
billed_at item [] = 0
billed_at item ((key, required) ∷ bill) = if key == item then required else billed_at item bill

unfoldable pub write_bill : ℕ → ℕ → Bill → Bill
write_bill item required [] = (item, required) ∷ []
write_bill item required ((key, old) ∷ bill) =
    let rest = write_bill item required bill in
    if key == item
    then (item, required) ∷ bill
    else if ltb item key
    then (item, required) ∷ (key, old) ∷ bill
    else (key, old) ∷ rest

-- Five herbs per casting, two pigments at the floor.
unfoldable pub milled : ℕ → ℕ
milled required = u64 (u64 (required + 2 - 1) / 2 * 5)

-- The item that is billed for a shortfall, and how many of it.
unfoldable pub billed : ProfessionProgressionReagentFact → ℕ → ℕ × ℕ
unfolding milled
billed reagent required =
    if reagent.milling_input_item_id == 0
    then (reagent.item_id, required)
    else (reagent.milling_input_item_id, milled required)

unfoldable pub shortfall : ℕ → ProfessionProgressionReagentFact → ℕ
shortfall bounded_batch reagent =
    let required = u64 (reagent.per_craft_quantity * bounded_batch) in
    if ltb reagent.owned_count required then required - reagent.owned_count else 0

unfoldable pub add_reagent : ℕ → ProfessionProgressionReagentFact → Bill → Option Bill
unfolding billed shortfall billed_at write_bill checked_add
add_reagent bounded_batch reagent bill =
    let required = shortfall bounded_batch reagent in
    let line = billed reagent required in
    if reagent.ordinary_vendor_available || required == 0
    then some bill
    else checked_add (billed_at line.0 bill) line.1 >>= λ total. some (write_bill line.0 total bill)

unfoldable pub reagent_bill : ℕ → List ProfessionProgressionReagentFact → Bill → Option Bill
unfolding add_reagent
reagent_bill bounded_batch [] bill = some bill
reagent_bill bounded_batch (reagent ∷ reagents) bill = do
  require (not (reagent.item_id == 0 || reagent.per_craft_quantity == 0))
  more ← add_reagent bounded_batch reagent bill
  reagent_bill bounded_batch reagents more

unfoldable pub bill_requirements : Bill → Option (List MaterialRequirement)
bill_requirements [] = some []
bill_requirements ((item, required) ∷ bill) = do
  require (leb required u32_max)
  rest ← bill_requirements bill
  some (record { item_id = item; quantity = required } ∷ rest)

unfoldable pub profession_progression_scarce_requirements :
    ℕ → List ProfessionProgressionReagentFact → Option (List MaterialRequirement)
unfolding reagent_bill bill_requirements
profession_progression_scarce_requirements bounded_batch reagents = do
  require (not (bounded_batch == 0))
  bill ← reagent_bill bounded_batch reagents []
  requirements ← bill_requirements bill
  require (not (is_empty requirements))
  some requirements
