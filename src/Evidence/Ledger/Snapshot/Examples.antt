-- ===== src/Evidence/Ledger/Snapshot/Examples.antt =====
-- A ledger of one record, marshalled and restored.
use magi_system.Prelude.{some, ◌≡◌, refl}
use magi_system.Evidence.Ledger.Invariant.{IsValid}
use magi_system.Evidence.Ledger.Snapshot.{
  Codec, marshal_ledger, restore_ledger, restored, snapshot_of,
}
use magi_system.Evidence.Ledger.Snapshot.Reached.{
  Reached, created, recorded, Reached-IsValid, restore_ledger-marshal_ledger,
}
use magi_system.Samples.{observed}
use magi_system.Samples.Assessments.{bit_ops, one_record}

one_record-Reached : Reached bit_ops one_record
one_record-Reached = recorded observed (created "case-1" "run-1" "BALTHASAR")

-- A codec for this one snapshot.
abbrev sample_codec : Codec
sample_codec = record { encode = λ s. some "{}"; decode = λ text. some (snapshot_of one_record) }

Reached-IsValid_example : IsValid one_record
Reached-IsValid_example = Reached-IsValid bit_ops one_record one_record-Reached

restore_ledger-marshal_ledger_example : restore_ledger sample_codec "{}" ≡ restored one_record
restore_ledger-marshal_ledger_example =
    restore_ledger-marshal_ledger sample_codec bit_ops one_record "{}" one_record-Reached
      (λ text e. refl) (unfold marshal_ledger in refl)
