-- ===== src/Producer/Size.antt =====
-- apps/bidder/code/stream/producer/{const,size}.go: the limits of a Kinesis request, and the number
-- of bytes that a message takes in one.
use guidance_for_building_a.Common.{ℕ, ◌+◌, ◌*◌, List, [], ◌∷◌, length, leb, if◌then◌else◌}

-- A message: the compressed bytes of a bid request or response.
abbrev pub Message : Type 0
Message = List ℕ

abbrev pub ksuid_partition_key_size : ℕ
ksuid_partition_key_size = 20

abbrev pub ksuid_partition_key_string_size : ℕ
ksuid_partition_key_string_size = 27

abbrev pub max_entries_per_request : ℕ
max_entries_per_request = 500

abbrev pub max_entry_size : ℕ
max_entry_size = 51200

abbrev pub max_request_size : ℕ
max_request_size = 5 * 1048576

abbrev pub magic_number : List ℕ
magic_number = 0xF3 ∷ 0x89 ∷ 0x9A ∷ 0xC2 ∷ []

-- `md5.Size`
abbrev pub md5_size : ℕ
md5_size = 16

abbrev pub record_metadata_size : ℕ
record_metadata_size = let protobuf_overhead : ℕ = 9 in protobuf_overhead + ksuid_partition_key_size

abbrev pub aggregate_metadata_size : ℕ
aggregate_metadata_size = length magic_number + md5_size

abbrev pub entry_metadata_size : ℕ
entry_metadata_size = aggregate_metadata_size + record_metadata_size

abbrev pub entry_total_metadata_size : ℕ
entry_total_metadata_size = entry_metadata_size + ksuid_partition_key_string_size

unfoldable pub message_proto_size : Message → ℕ
message_proto_size msg =
    let l = length msg in
    if leb l 123
    then l + 6
    else if leb l 127
    then l + 7
    else if leb l 16378
    then l + 8
    else if leb l 16383
    then l + 9
    else l + 10
