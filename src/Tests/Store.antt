-- ===== src/Tests/Store.antt =====
-- The input history, the input decoder, the selector, the arena and the tool registry.
use oi_c.Prelude.{
  ◌⊎◌, ◌-◌, equal, if◌then◌else◌, ℕ, ◌≤◌, ◌≡◌, refl, Bool, true, false, [], ◌∷◌, drop, none, some,
  arith,
}
use oi_c.Utf8.{sequence_length, lead_length, is_continuation}
use oi_c.InputHistory
use oi_c.InputHistory.{History, validate_text, previous, next, step_back, remove_oldest, max_text}
use oi_c.InputHistory.Evict
use oi_c.InputHistory.Evict.{total, Fits, remove_oldest_lem}
use oi_c.InputHistory.Bound.{
  Kept, append-Kept, append_history-IsValid, previous-IsValid, next-IsValid,
}
use oi_c.Input
use oi_c.Input.{Event, decode, decode_pasted, decode_text, expected_length, text_event}
use oi_c.Input.Progress.{Progress, decode-Progress}
use oi_c.Input.Text.{Carries, decode-Carries}
use oi_c.Arena.{Arena, alloc, reset, used}
use oi_c.Arena.Laws
use oi_c.Arena.Laws.{Allocated, alloc-Allocated, alloc-IsValid}
use oi_c.Arena.Reset.{used-reset}
use oi_c.ToolRegistry
use oi_c.ToolRegistry.{Entry, Registry, find_entry, create, reserve, put, is_found}
use oi_c.ToolRegistry.Laws.{find_entry-add}

abbrev all_granted : ℕ → Bool
all_granted n = true

abbrev history : History
history = record {
  entries = (97 ∷ []) ∷ (98 ∷ 99 ∷ []) ∷ [];
  cap = 16;
  bytes = 3;
  draft = some (100 ∷ []);
  navigation_index = 1;
  navigating = true;
}

abbrev at_rest : History
at_rest = record history { draft = none; navigation_index = 2; navigating = false }

history-IsValid : Evict.IsValid history
unfolding total
history-IsValid = record {
  few = omega arith;
  counted = refl;
  small = omega arith;
  inside = omega arith;
  held = omega arith;
  room = omega arith;
}

append-Kept_example : Kept history (101 ∷ []) (InputHistory.append all_granted history (101 ∷ []))
append-Kept_example = append-Kept all_granted history (101 ∷ []) history-IsValid

append_history-IsValid_example :
    Evict.IsValid (InputHistory.append all_granted history (101 ∷ [])).1
append_history-IsValid_example =
    append_history-IsValid all_granted history (101 ∷ []) history-IsValid

remove_oldest_lem_example :
    (k : ℕ) × (k ≤ 1)
    × (remove_oldest 5 ((97 ∷ []) ∷ []) (total ((97 ∷ []) ∷ []))
        ≡ (drop k ((97 ∷ []) ∷ []), total (drop k ((97 ∷ []) ∷ []))))
    × Fits 5 (drop k ((97 ∷ []) ∷ []))
    × ((k ≡ 0) ⊎ ¬ Fits 5 (drop (k - 1) ((97 ∷ []) ∷ [])))
remove_oldest_lem_example = remove_oldest_lem 5 ((97 ∷ []) ∷ []) (omega arith)

previous-IsValid_example : Evict.IsValid (previous all_granted history (101 ∷ [])).1
previous-IsValid_example = previous-IsValid all_granted history (101 ∷ []) history-IsValid

next-IsValid_example : Evict.IsValid (next history).1
next-IsValid_example = next-IsValid history history-IsValid

-- An arrow, cut behind its "[".
decode-Progress_example : Progress false (27 ∷ 91 ∷ []) (decode false (27 ∷ 91 ∷ []))
decode-Progress_example = decode-Progress false 27 (91 ∷ [])

decode-Carries_example : Carries true (226 ∷ 130 ∷ 172 ∷ []) (decode true (226 ∷ 130 ∷ 172 ∷ []))
unfolding decode decode_pasted decode_text expected_length text_event sequence_length lead_length
    is_continuation
decode-Carries_example = decode-Carries true (226 ∷ 130 ∷ 172 ∷ []) refl

abbrev arrow : Event
arrow = record { kind = Input.EventType.down; bytes = []; pasted = false }

abbrev arena : Arena
arena = record {
  full = [];
  current = record { capacity = 64; used = 50 };
  spare = record { capacity = 64; used = 0 } ∷ [];
  block_size = 64;
}

arena-IsValid : Laws.IsValid arena
arena-IsValid = record {
  positive = omega arith;
  sized = refl;
  fits = omega arith;
  filled = tt;
  fresh = ((refl, refl), tt);
}

alloc-Allocated_example : Allocated all_granted 20 arena (alloc all_granted arena 20)
alloc-Allocated_example = alloc-Allocated all_granted arena 20 arena-IsValid

used-reset_example : used (reset arena) ≡ 0
used-reset_example = used-reset arena

abbrev tool : Entry ℕ
tool = record { name = 97 ∷ []; json_schema = 123 ∷ 125 ∷ []; tool = 7 }

abbrev tools : Registry ℕ
tools = record { entries = []; cap = 0 }

find_entry-add_example :
    find_entry (97 ∷ []) (ToolRegistry.add all_granted tools tool).1.entries
    ≡ (if equal tool.name (97 ∷ []) then some tool else find_entry (97 ∷ []) tools.entries)
unfolding ToolRegistry.add find_entry reserve put
find_entry-add_example = find_entry-add all_granted tools tool (97 ∷ []) refl
