-- ===== src/Producer/Wire.antt =====
-- The messages of apps/bidder/code/stream/producer/messages.proto and the sizes that the protobuf
-- wire format gives them. `messageProtoSize` and `recordMetadataSize` of size.go, whose constants
-- were found by experiment, are compared with these.
use guidance_for_building_a.Common.{
  ℕ, zero, suc, ◌+◌, ◌/◌, ◌≤◌, ◌<◌, ◌^◌, ◌≡◌, List, length, sum, map, ltb, if◌then◌else◌, arith,
}
use guidance_for_building_a.Producer.Size.{
  Message, message_proto_size, record_metadata_size, ksuid_partition_key_string_size,
}

-- `message Record`, without the optional fields, which the producer leaves out.
pub record Record : Type 0 where
  pub partition_key_index : ℕ
  pub payload : List ℕ

-- `message AggregatedRecord`, without the explicit hash keys, which the producer leaves out.
pub record AggregatedRecord : Type 0 where
  pub partition_key_table : List (List ℕ)
  pub records : List Record

-- Groups of seven bits, the fuel bounding their number.
groups : ℕ → ℕ → ℕ
groups zero n = 0
groups (suc fuel) n = let rest = groups fuel (n / 128) in if ltb n 128 then 1 else rest + 1

-- A 64-bit number takes ten groups at most.
unfoldable pub varint_size : ℕ → ℕ
unfolding groups
varint_size n = groups 10 n

-- A field with a number below 16 whose value is `n` bytes behind their length.
unfoldable pub delimited_size : ℕ → ℕ
delimited_size n = 1 + varint_size n + n

unfoldable pub record_size : Record → ℕ
record_size r = 1 + varint_size r.partition_key_index + delimited_size (length r.payload)

unfoldable pub aggregate_size : AggregatedRecord → ℕ
aggregate_size a =
    sum (map (λ k. delimited_size (length k)) a.partition_key_table)
    + sum (map (λ r. delimited_size (record_size r)) a.records)

varint_size_one : (n : ℕ) → n < 128 → varint_size n ≡ 1
unfolding varint_size
varint_size_one n h = ground arith

varint_size_two : (n : ℕ) → 128 ≤ n → n < 2 ^ 14 → varint_size n ≡ 2
unfolding varint_size
varint_size_two n l h = ground arith

varint_size_three : (n : ℕ) → 2 ^ 14 ≤ n → n < 2 ^ 21 → varint_size n ≡ 3
unfolding varint_size
varint_size_three n l h = ground arith

-- The size that the batch counts for a message below 2 ^ 21 - 6 bytes is exactly the size of the
-- wire format's field that holds it in an aggregate, under the partition key with index 0.
pub message_proto_size-wire :
    (m : Message)
    → length m + 6 < 2 ^ 21
    → message_proto_size m
      ≡ delimited_size (record_size (record { partition_key_index = 0; payload = m }))
unfolding message_proto_size delimited_size record_size
message_proto_size-wire m h =
    let l = length m in
    ground (
      arith,
      varint_size_one 0,
      varint_size_one l,
      varint_size_two l,
      varint_size_three l,
      varint_size_one (l + 4),
      varint_size_two (l + 4),
      varint_size_two (l + 5),
      varint_size_three (l + 5),
      varint_size_three (l + 6),
    )

-- The metadata of an aggregate: a table with one KSUID string.
pub record_metadata_size-wire :
    (key : List ℕ)
    → length key ≡ ksuid_partition_key_string_size
    → delimited_size (length key) ≡ record_metadata_size
unfolding delimited_size
record_metadata_size-wire key h = ground (arith, varint_size_one (length key))
