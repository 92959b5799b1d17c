-- ===== src/Usage/Tests.antt =====
-- A table of uses, and the theorem on recording at it.
use cosmic_pass.Base.{
  ◌≡◌, refl, arith, length, min, some, [], ◌∷◌, all, true, decide, string_discrete,
}
use cosmic_pass.Base.Int.{pos}
use cosmic_pass.Domain.Items.{key_discrete}
use cosmic_pass.Usage.Table.{UsageTable, record_use, recency, evict, evict_loop, max_records}
use cosmic_pass.Usage.Recent.{is_distinct, is_older}
use cosmic_pass.Usage.Evicted.{evict_loop_ends}
use cosmic_pass.Usage.Recorded.{recency-record_use}
use cosmic_pass.Fixtures.{key}

abbrev two_uses : UsageTable
two_uses = record {
  records =
      record { key = key "a"; last_used = pos 10; count = 3 }
      ∷ record { key = key "b"; last_used = pos 20; count = 1 }
      ∷ [];
}

two_keys : is_distinct two_uses.records ≡ true
unfolding is_distinct decide key_discrete string_discrete
two_keys = refl

used_before : all (is_older (key "a") (pos 30)) two_uses.records ≡ true
unfolding all decide key_discrete string_discrete
used_before = refl

recency-record_use_example :
    recency (record_use two_uses (key "a") (pos 30)) (key "a") ≡ some (pos 30)
recency-record_use_example = recency-record_use two_uses (key "a") (pos 30) two_keys used_before

evict_loop_ends_example :
    (evict_loop 5 two_uses.records ≡ evict two_uses.records)
    × (length (evict_loop 5 two_uses.records) ≡ min (length two_uses.records) max_records)
evict_loop_ends_example = evict_loop_ends 5 two_uses.records (omega arith)
