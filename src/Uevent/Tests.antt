-- ===== src/Uevent/Tests.antt =====
-- A message of the README of tools/uevent-view, and the theorems at an input.
use code_slices.Base.{
  ◌+◌, ℕ, zero, suc, ◌≡◌, refl, true, false, some, List, [], ◌∷◌, ◌++◌, codes, length,
}
use code_slices.Base.Int.{ℤ, pos_part, pos, negsuc}
use code_slices.Uevent.{
  dump_event, received, not_set, Round, failed, monitor_kevents, netlink_proto,
}
use code_slices.Uevent.Dump.{Inserted, dump_event-Inserted}
use code_slices.Uevent.Fields.{Field}

abbrev fields : List Field
fields =
    record { key = codes "ACTION"; value = codes "remove" }
    ∷ record { key = codes "POWER_SUPPLY_PRESENT"; value = codes "1" }
    ∷ []

dump_event-Inserted_example :
    (out : List ℕ) × (dump_event (codes "KEY=1" ++ 0 ∷ []) (pos (length (codes "KEY=1"))) true
      ≡ some out)
    × Inserted (codes "KEY=1") out
dump_event-Inserted_example = dump_event-Inserted (codes "KEY=1") (0 ∷ [])

key_line : dump_event (codes "KEY=1") (pos 5) true ≡ some (10 ∷ codes "  KEY = 1" ++ 10 ∷ 10 ∷ [])
unfolding dump_event
key_line = refl

abbrev rounds : List Round
rounds =
    record { arrival = received (codes "KEY=1"); exit_flag = false }
    ∷ record { arrival = not_set; exit_flag = true }
    ∷ record { arrival = received (codes "late"); exit_flag = false }
    ∷ []

-- The socket of a protocol has the next number, and each can be bound.
abbrev socket : ℤ → ℤ
socket proto = pos (pos_part proto + 1)

abbrev zeros : ℕ → List ℕ
zeros zero = []
zeros (suc n) = 0 ∷ zeros n

full_round : ℕ → List Round
full_round n = record { arrival = received (zeros n); exit_flag = false } ∷ []

bind_fails : monitor_kevents (pos 3) (negsuc 0) true rounds ≡ some ([], failed)
unfolding monitor_kevents
bind_fails = refl

negative_protocol : netlink_proto (pos 15) (some (negsuc 3)) ≡ pos 15
unfolding netlink_proto
negative_protocol = refl
