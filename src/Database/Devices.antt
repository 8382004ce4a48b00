-- ===== src/Database/Devices.antt =====
-- repositories/device/unmarshall_device.go of apps/bidder/code/database/dynamodb: the audiences of a
-- device.
use guidance_for_building_a.Common.{
  ℕ, zero, suc, ◌≤◌, ◌<◌, ◌≡◌, refl, ap, sym, ◌∙◌, List, [], ◌∷◌, ◌++◌, Option, none, some, All,
  length, copy, copy-take, take-append, drop-append, length-append, append_assoc, append-nil, drop,
  arith,
}
use guidance_for_building_a.Id.{ItemId, len, zero_id}
use guidance_for_building_a.Api.{Error, bad_response_format}
use guidance_for_building_a.Database.Budgets.{Attribute, binary, other_type}

-- `for offset := 0; offset < len(audiences); offset += id.Len`, over the bytes from the offset on;
-- `copy` leaves the rest of the identifier before, where fewer bytes are left. One round for each
-- byte is enough.
unfoldable pub each_audience : ℕ → ItemId → List ℕ → List ItemId → List ItemId
each_audience zero id audiences result = result
each_audience (suc fuel) id [] result = result
each_audience (suc fuel) id (x ∷ xs) result =
    let id' = copy id (x ∷ xs) in each_audience fuel id' (drop len (x ∷ xs)) (result ++ id' ∷ [])

unfoldable pub unmarshall_audiences : List ℕ → List ItemId → List ItemId
unmarshall_audiences audiences result = each_audience (length audiences) zero_id audiences result

-- `unmarshallDeviceAttributesV1`; an attribute of another type has no bytes.
unfoldable pub unmarshall_device_attributes_v1 :
    Option Attribute → List ItemId → List ItemId × Option Error
unmarshall_device_attributes_v1 none result = (result, some bad_response_format)
unmarshall_device_attributes_v1 (some (binary audiences)) result =
    (unmarshall_audiences audiences result, none)
unmarshall_device_attributes_v1 (some other_type) result = (unmarshall_audiences [] result, none)

-- `unmarshallDeviceAttributesV2`
unfoldable pub unmarshall_device_attributes_v2 :
    Option Attribute → List ItemId → List ItemId × Option Error
unmarshall_device_attributes_v2 none result = (result, some bad_response_format)
unmarshall_device_attributes_v2 (some other_type) result = (result, some bad_response_format)
unmarshall_device_attributes_v2 (some (binary audiences)) result =
    (unmarshall_audiences audiences result, none)

-- Identifiers one behind the other.
abbrev pub concat : List ItemId → List ℕ
concat [] = []
concat (i ∷ is) = i ++ concat is

pub each_audience-suc :
    (fuel : ℕ) (id : ItemId) (bytes : List ℕ) (result : List ItemId) (i : ItemId) (rest : List ℕ)
    → 0 < length bytes
    → copy id bytes ≡ i
    → drop len bytes ≡ rest
    → each_audience (suc fuel) id bytes result ≡ each_audience fuel i rest (result ++ i ∷ [])
each_audience-suc fuel id [] result i rest some_left same next = absurd (omega arith)
each_audience-suc fuel id (x ∷ xs) result i rest some_left same next =
    let bytes : List ℕ = x ∷ xs in
    let base : each_audience (suc fuel) id bytes result
        ≡ each_audience fuel (copy id bytes) (drop len bytes) (result ++ copy id bytes ∷ []) =
      unfold each_audience in refl in
    base
    ∙ ap (λ k. each_audience fuel k (drop len bytes) (result ++ k ∷ [])) same
    ∙ ap (λ k. each_audience fuel i k (result ++ i ∷ [])) next

pub each_audience-concat :
    (fuel : ℕ) (id : ItemId) (is result : List ItemId)
    → length id ≡ len
    → All (λ (i : ItemId). length i ≡ len) is
    → length (concat is) ≤ fuel
    → each_audience fuel id (concat is) result ≡ result ++ is
each_audience-concat zero id [] result e h enough = unfold each_audience in sym (append-nil result)
each_audience-concat (suc fuel) id [] result e h enough =
    unfold each_audience in sym (append-nil result)
each_audience-concat zero id (i ∷ is) result e h enough =
    absurd (omega (arith, length-append i (concat is), h.0))
each_audience-concat (suc fuel) id (i ∷ is) result e h enough =
    let size = length-append i (concat is) in
    each_audience-suc fuel id (i ++ concat is) result i (concat is) (omega (arith, size, h.0))
      (copy-take id (i ++ concat is) (omega (arith, size, h.0))
        ∙ take-append i (concat is) (length id) (omega (arith, h.0)))
      (drop-append i (concat is) len h.0)
    ∙ each_audience-concat fuel i is (result ++ i ∷ []) h.0 h.1 (omega (arith, size, h.0))
    ∙ append_assoc result (i ∷ []) is

pub unmarshall_audiences-concat :
    (is result : List ItemId)
    → All (λ (i : ItemId). length i ≡ len) is
    → unmarshall_audiences (concat is) result ≡ result ++ is
unfolding unmarshall_audiences
unmarshall_audiences-concat is result h =
    each_audience-concat (length (concat is)) zero_id is result refl h (omega arith)

-- The audiences of a device, stored as identifiers of 16 bytes one behind the other, are appended
-- to the result in that order, by the readers of both SDKs.
pub unmarshall_device-concat :
    (is result : List ItemId)
    → All (λ (i : ItemId). length i ≡ len) is
    → (unmarshall_device_attributes_v1 (some (binary (concat is))) result ≡ (result ++ is, none))
      × (unmarshall_device_attributes_v2 (some (binary (concat is))) result ≡ (result ++ is, none))
unfolding unmarshall_device_attributes_v1 unmarshall_device_attributes_v2
unmarshall_device-concat is result h =
    let all = unmarshall_audiences-concat is result h in
    (ap (λ l. (l, none)) all, ap (λ l. (l, none)) all)
