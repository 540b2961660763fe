-- ===== src/Cleanup.antt =====
-- web/ui/src/pages/system/Diagnostics.tsx: the state of a DiagnosticCard. The rows are those that
-- the server has reported last; the selection is a set, here a list without repetition.
use haul.Base.{
  ℕ, Bool, true, false, not, Option, none, some, List, [], ◌∷◌, ◌++◌, length, keep, any, ltb, ◌==◌,
  ◌&&◌, if◌then◌else◌, String, str_eq, ◌≡◌, distinct,
}
use haul.Api.Types.{Mutation}
use haul.Api.Admin.{Targets, ids, every, CleanupMode, soft, hard, use_cleanup_diagnostic}
mod Laws
mod History
mod Page
mod Undo
mod Selection
mod Tests

pub record Card : Type 0 where
  pub expanded : Bool
  pub confirm_open : Bool
  pub hard_delete : Bool
  pub selected : List String

abbrev pub fresh_card : Card
fresh_card = record { expanded = false; confirm_open = false; hard_delete = false; selected = [] }

unfoldable pub toggle_row : String → List String → List String
toggle_row id prev =
    if any (str_eq id) prev then keep (λ other. not (str_eq id other)) prev else prev ++ (id ∷ [])

-- `new Set(rows.map((r) => r.id))`: the ids of rows are different.
unfoldable pub toggle_all : List String → List String → List String
toggle_all rows prev = if length prev == length rows then [] else rows

unfoldable pub all_selected : List String → Card → Bool
all_selected rows c = ltb 0 (length rows) && length c.selected == length rows

unfoldable pub some_selected : List String → Card → Bool
unfolding all_selected
some_selected rows c = ltb 0 (length c.selected) && not (all_selected rows c)

unfoldable pub cleanup_targets : Card → Targets
cleanup_targets c = if ltb 0 (length c.selected) then ids c.selected else every

unfoldable pub cleanup_count : List String → Card → ℕ
cleanup_count rows c = if ltb 0 (length c.selected) then length c.selected else length rows

-- `onConfirm`: the request for the diagnostic of that name.
unfoldable pub on_confirm : String → Card → Mutation
unfolding cleanup_targets
on_confirm name c =
    use_cleanup_diagnostic name (cleanup_targets c) (if c.hard_delete then hard else soft)

pub data CardEvent : Type 0 where
  expand : CardEvent
  row_clicked : String → CardEvent
  all_clicked : List String → CardEvent
  row_cleanup : String → CardEvent
  selection_cleared : CardEvent
  cleanup_clicked : CardEvent
  hard_changed : Bool → CardEvent
  cancelled : CardEvent
  cleaned : CardEvent

unfoldable pub on_card : CardEvent → Card → Card
unfolding toggle_row toggle_all
on_card expand c = record c { expanded = not c.expanded }
on_card (row_clicked id) c = record c { selected = toggle_row id c.selected }
on_card (all_clicked rows) c = record c { selected = toggle_all rows c.selected }
on_card (row_cleanup id) c = record c { selected = id ∷ []; confirm_open = true }
on_card selection_cleared c = record c { selected = [] }
on_card cleanup_clicked c = record c { confirm_open = true }
on_card (hard_changed v) c = record c { hard_delete = v }
on_card cancelled c = record c { confirm_open = false; hard_delete = false }
on_card cleaned c = record c { confirm_open = false; hard_delete = false; selected = [] }

-- Which events the page offers: the box for a permanent deletion is part of the confirmation, and the
-- box for all rows has the ids that the server gave, which are different.
pub Offered : CardEvent → Card → Type 0
Offered (hard_changed v) c = c.confirm_open ≡ true
Offered (all_clicked rows) c = distinct rows ≡ true
Offered _ c = Unit

pub data CardRuns : Card → Type 0 where
  begin : CardRuns fresh_card
  event : (c : Card) (e : CardEvent) → CardRuns c → Offered e c → CardRuns (on_card e c)
