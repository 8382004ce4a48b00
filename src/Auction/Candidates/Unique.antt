-- ===== src/Auction/Candidates/Unique.antt =====
-- The lookup table is an optimised way to drop repetitions.
use guidance_for_building_a.Common.{
  ℕ, ◌+◌, ◌≤◌, ◌<◌, ◌≡◌, ◌≢◌, refl, ap, sym, ◌∙◌, List, [], ◌∷◌, ◌++◌, some, All, All-get_elem?,
  length, get_elem?, get_elem?-some, get_elem?-set_self, get_elem?-set_ne, length-set, set,
  replicate, length-replicate, ◌==◌, ==_iff, if◌then◌else◌, Bool-cases, inl, inr, arith, ltb,
}
use guidance_for_building_a.Common.Int64.{u64_mod}
use guidance_for_building_a.Id.{ItemId}
use guidance_for_building_a.Cache.Audiences
use guidance_for_building_a.Cache.Audiences.{AudienceCache}
use guidance_for_building_a.Auction.Indices.{contains, contains-snoc}
use guidance_for_building_a.Auction.Candidates.{
  CampaignLookup, get_lookup, initialize, visit, add_campaigns, add_audiences,
  get_audience_campaigns,
}
use guidance_for_building_a.Auction.Candidates.Listing.{unique, targeting, InRange, unique-append}

-- A table of the pool: no entry is beyond the number of its last run.
abbrev pub IsStale : CampaignLookup → Type 0
IsStale l = All (λ a. a ≤ l.run_id) l.lookup

-- It has been used in at most `n` runs.
abbrev pub IsTable : ℕ → CampaignLookup → Type 0
IsTable n l = IsStale l × (l.run_id ≤ n)

-- During a run the entries with its number are the indices seen.
pub record Marks (size : ℕ) (l : CampaignLookup) (seen : List ℕ) : Type 0 where
  pub sized : size ≤ length l.lookup
  pub stale : IsStale l
  pub marks : (i a : ℕ) → get_elem? l.lookup i ≡ some a → (a == l.run_id) ≡ contains i seen

set-stale : (xs : List ℕ) (i r : ℕ) → All (λ a. a ≤ r) xs → All (λ a. a ≤ r) (set xs i r)
set-stale [] i r h = tt
set-stale (x ∷ xs) ℕ.zero r h = (omega arith, h.1)
set-stale (x ∷ xs) (ℕ.suc i) r h = (h.0, set-stale xs i r h.1)

mark-Marks :
    (size : ℕ) (l : CampaignLookup) (seen : List ℕ) (c : ℕ)
    → c < size
    → Marks size l seen
    → Marks size (record l { lookup = set l.lookup c l.run_id }) (seen ++ c ∷ [])
mark-Marks size l seen c h m = record {
  sized = omega (arith, length-set l.lookup c l.run_id, m.sized);
  stale = set-stale l.lookup c l.run_id m.stale;
  marks = marked;
}
  where
    marked :
        (i a : ℕ)
        → get_elem? (set l.lookup c l.run_id) i ≡ some a
        → (a == l.run_id) ≡ contains i (seen ++ c ∷ [])
    marked i a e = elim (Bool-cases (c == i)) [
      | inl eq ↦
          let same : c ≡ i = (==_iff c i).0 eq in
          let e' = get_elem?-set_self l.lookup c l.run_id (omega (arith, m.sized)) in
          let e0 : get_elem? (set l.lookup c l.run_id) c ≡ some a =
            ap (get_elem? (set l.lookup c l.run_id)) same ∙ e in
          let mine : a ≡ l.run_id = cc (e0, e') in ground (arith, contains-snoc i seen c)
      | inr ne ↦
          let other : c ≢ i = λ same. ground arith in
          let e' : get_elem? l.lookup i ≡ some a =
            sym (get_elem?-set_ne l.lookup c i l.run_id other) ∙ e in
          ground (arith, contains-snoc i seen c, m.marks i a e')
    ]

visit_unique :
    (size : ℕ) (l : CampaignLookup) (acc : List ℕ) (c : ℕ)
    → Marks size l acc
    → c < size
    → let acc' = if contains c acc then acc else acc ++ c ∷ [] in
      (l' : CampaignLookup) × (visit l acc c ≡ some (acc', l'))
      × Marks size l' acc'
      × (l'.run_id ≡ l.run_id)
unfolding visit
visit_unique size l acc c m h =
    let (a, e) = get_elem?-some l.lookup c (omega (arith, m.sized)) in
    let test = m.marks c a e in
    elim (Bool-cases (contains c acc)) [
      | inl seen ↦ rw seen (l, rw (e, visit, test, seen), m, refl)
      | inr new ↦ rw new (
        record l { lookup = set l.lookup c l.run_id },
        rw (e, visit, test, new),
        mark-Marks size l acc c h m,
        refl,
      )
    ]

add_campaigns-unique :
    (size : ℕ) (l : CampaignLookup) (acc cs : List ℕ)
    → Marks size l acc
    → All (λ c. c < size) cs
    → (l' : CampaignLookup) × (add_campaigns l acc cs ≡ some (unique acc cs, l'))
      × Marks size l' (unique acc cs)
      × (l'.run_id ≡ l.run_id)
unfolding add_campaigns unique
add_campaigns-unique size l acc [] m h = (l, refl, m, refl)
add_campaigns-unique size l acc (c ∷ cs) m h =
    let (l', e, m', r) = visit_unique size l acc c m h.0 in
    let (l'', e', m'', r') = add_campaigns-unique size l' _ cs m' h.1 in
    (l'', rw (e, add_campaigns) e', m'', r' ∙ r)

add_audiences-unique :
    (size : ℕ) (audience : AudienceCache) (l : CampaignLookup) (acc : List ℕ) (ids : List ItemId)
    → Marks size l acc
    → InRange size audience ids
    → (l' : CampaignLookup) × (add_audiences audience l acc ids
        ≡ some (unique acc (targeting audience ids), l'))
      × IsStale l'
      × (l'.run_id ≡ l.run_id)
unfolding add_audiences targeting InRange unique
add_audiences-unique size audience l acc [] m h = (l, refl, m.stale, refl)
add_audiences-unique size audience l acc (a ∷ rest) m h =
    let (l', e, m', r) = add_campaigns-unique size l acc (Audiences.get audience a) m h.0 in
    let (l'', e', s', r') = add_audiences-unique size audience l' _ rest m' h.1 in
    (
      l'',
      rw (e, add_audiences, unique-append (Audiences.get audience a) acc (targeting audience rest))
          e',
      s',
      r' ∙ r,
    )

stale_zeros : (n r : ℕ) → All (λ a. a ≤ r) (replicate n 0)
stale_zeros ℕ.zero r = tt
stale_zeros (ℕ.suc n) r = (omega arith, stale_zeros n r)

All-le : (xs : List ℕ) (r r' : ℕ) → All (λ a. a ≤ r) xs → r ≤ r' → All (λ a. a ≤ r') xs
All-le [] r r' h le = tt
All-le (x ∷ xs) r r' h le = (omega (arith, h.0), All-le xs r r' h.1 le)

stale_at : (xs : List ℕ) (r i a : ℕ) → All (λ b. b ≤ r) xs → get_elem? xs i ≡ some a → a ≤ r
stale_at xs r i a h e = All-get_elem? (λ b. b ≤ r) xs i h e

fresh-Marks :
    (size r r' : ℕ) (xs : List ℕ)
    → size ≤ length xs
    → All (λ a. a ≤ r) xs
    → r < r'
    → Marks size (record { lookup = xs; run_id = r' }) []
unfolding contains
fresh-Marks size r r' xs sized s lt = record {
  sized = sized;
  stale = All-le xs r r' s (omega arith);
  marks = λ i a e. let le = stale_at xs r i a s e in ground (arith, le);
}

initialize-Marks :
    (size : ℕ) (l : CampaignLookup)
    → IsStale l
    → l.run_id + 1 < u64_mod
    → Marks size (initialize size l) []
unfolding initialize
initialize-Marks size l s small = elim (Bool-cases (ltb (length l.lookup) size)) [
  | inl short ↦
      let sized : size ≤ length (replicate {A = ℕ} size 0) =
        omega (arith, length-replicate {A = ℕ} size 0) in
      rw short (fresh-Marks size 0 _ (replicate size 0) sized (stale_zeros size 0) (omega arith))
  | inr long ↦
      let sized : size ≤ length l.lookup = ground arith in
      rw long (fresh-Marks size l.run_id _ l.lookup sized s (omega arith))
]

pub IsTable-suc :
    (n : ℕ) (pool : List CampaignLookup) → All (IsTable n) pool → All (IsTable (n + 1)) pool
IsTable-suc n [] h = tt
IsTable-suc n (l ∷ pool) h = ((h.0.0, omega (arith, h.0.1)), IsTable-suc n pool h.1)

run_id-initialize :
    (size : ℕ) (l : CampaignLookup) (n : ℕ)
    → l.run_id ≤ n
    → n + 1 < u64_mod
    → (initialize size l).run_id ≤ n + 1
unfolding initialize
run_id-initialize size l n h small = omega arith

-- Where `n` runs have used the tables of the pool, no run number wraps around and every target is
-- the index of a cached campaign, `getAudienceCampaigns` does not panic and gives the targets of
-- the audiences, each where it first occurs; the tables are ready for the next run.
pub get_audience_campaigns-unique :
    (n : ℕ) (audience : AudienceCache) (size : ℕ) (pool : List CampaignLookup) (ids : List ItemId)
    → All (IsTable n) pool
    → n + 1 < u64_mod
    → InRange size audience ids
    → (pool' : List CampaignLookup) × (get_audience_campaigns audience size pool ids
        ≡ some (unique [] (targeting audience ids), pool'))
      × All (IsTable (n + 1)) pool'
unfolding get_audience_campaigns get_lookup
get_audience_campaigns-unique n audience size [] ids ready small h =
    let l : CampaignLookup = record { lookup = []; run_id = 0 } in
    let (l', e, s, r) =
      add_audiences-unique size audience (initialize size l) [] ids
        (initialize-Marks size l tt (omega arith)) h in
    let low = run_id-initialize size l n (omega arith) small in
    (l' ∷ [], rw e refl, ((s, omega (arith, r)), tt))
get_audience_campaigns-unique n audience size (l ∷ pool) ids ready small h =
    let (l', e, s, r) =
      add_audiences-unique size audience (initialize size l) [] ids
        (initialize-Marks size l ready.0.0 (omega (arith, ready.0.1))) h in
    let low = run_id-initialize size l n ready.0.1 small in
    (l' ∷ pool, rw e refl, ((s, omega (arith, r)), IsTable-suc n pool ready.1))
