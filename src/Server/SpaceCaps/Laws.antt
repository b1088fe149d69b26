-- ===== src/Server/SpaceCaps/Laws.antt =====
-- The field capabilities of a service: their cache, and the fields that they name.
use wazuh_dashboard_security.Base.{
  ap, ℕ, ◌+◌, ◌≤◌, String, true, List, [], ◌∷◌, ◌≡◌, ◌≢◌, refl, arith, Option, none, some, All,
  includes, length, length-append, inl, inr, ◌&&◌, Bool-cases,
}
use wazuh_dashboard_security.Json.{nullish, path, obj, end, Json, truthy, opt}
use wazuh_dashboard_security.Server.Client.{
  Target, Host, Session, SpaceFieldCaps, Outcome, return, throw, call, try_catch, ◌>>=◌, and_then,
}
use wazuh_dashboard_security.Server.SpaceCaps.{
  cached_or_fetch, get_space_field_caps, fetch_space_field_caps, caps_of, fallback_caps,
  fields_with, or_candidates, remember, space_field_candidates, has_capability, entries,
}

-- What a handler gets is cached, and at most one call was made for it.
abbrev IsCached : ℕ → Outcome SpaceFieldCaps × Session → Type 0
IsCached n r =
    (caps : SpaceFieldCaps) × (r.0 ≡ return caps) × (r.1.caps ≡ some caps) × (length r.1.calls ≤ n)

module _ (host : Host) (index : String) where
  answered :
      (n : ℕ) (r : Outcome Json) (after : Session)
      → length after.calls ≤ n
      → IsCached n
          (elim (and_then r (λ response. remember (caps_of response)) after).0
            as (λ _. Outcome SpaceFieldCaps × Session) [
              | return a ↦
                  (return a, (and_then r (λ response. remember (caps_of response)) after).1)
              | throw error ↦
                  remember fallback_caps
                    (and_then r (λ response. remember (caps_of response)) after).1
            ])
  unfolding remember
  answered n (return v) after h = (caps_of v, refl, refl, h)
  answered n (throw e) after h = (fallback_caps, refl, refl, h)

  fetch-IsCached :
      (target : Target) (s : Session)
      → IsCached (length s.calls + 1) (fetch_space_field_caps host target index s)
  unfolding fetch_space_field_caps try_catch ◌>>=◌ call
  fetch-IsCached target s =
      answered (length s.calls + 1) _ _ (omega (arith, length-append {0} s.calls))

  cached_or_fetch-IsCached :
      (target : Target) (s : Session) (cached : Option SpaceFieldCaps)
      → s.caps ≡ cached
      → IsCached (length s.calls + 1) (cached_or_fetch host target index cached s)
  unfolding cached_or_fetch
  cached_or_fetch-IsCached target s none e = fetch-IsCached target s
  cached_or_fetch-IsCached target s (some caps) e = (caps, refl, e, omega arith)

  get-IsCached :
      (target : Target) (s : Session)
      → IsCached (length s.calls + 1) (get_space_field_caps host target index s)
  unfolding get_space_field_caps
  get-IsCached target s = cached_or_fetch-IsCached target s s.caps refl

  get-cached :
      (target : Target) (s : Session) (caps : SpaceFieldCaps)
      → s.caps ≡ some caps
      → get_space_field_caps host target index s ≡ (return caps, s)
  unfolding get_space_field_caps
  get-cached target s caps e = ap (λ c. cached_or_fetch host target index c s) e

  -- Whatever the client answers or throws, a request gets capabilities, with at most one call; each
  -- later request, whatever its target, gets the same ones, makes no call and changes nothing.
  pub get_space_field_caps-once :
      (target later : Target) (s : Session)
      → (caps : SpaceFieldCaps) × ((get_space_field_caps host target index s).0 ≡ return caps)
        × (length (get_space_field_caps host target index s).1.calls ≤ length s.calls + 1)
        × (get_space_field_caps host later index (get_space_field_caps host target index s).1
            ≡ (return caps, (get_space_field_caps host target index s).1))
  get_space_field_caps-once target later s =
      let (caps, result, cached, calls) = get-IsCached target s in
      (
        caps,
        result,
        calls,
        get-cached later (get_space_field_caps host target index s).1 caps cached,
      )

-- The fields to search by: some, and candidates only.
abbrev pub IsCandidate : String → Type 0
IsCandidate f = includes f space_field_candidates ≡ true

abbrev pub AreCandidates : List String → Type 0
AreCandidates fs = (fs ≢ []) × All IsCandidate fs

fields_with-All :
    (P : String → Type 0) (capability : String) (found : Json) (fs : List String)
    → All P fs
    → All P (fields_with capability found fs)
unfolding fields_with
fields_with-All P capability found [] h = tt
fields_with-All P capability found (f ∷ fs) (p, h) =
    elim (Bool-cases (truthy (opt found f) && has_capability capability (entries (opt found f)))) [
      | inl has ↦ rw has (p, fields_with-All P capability found fs h)
      | inr lacks ↦ rw lacks (fields_with-All P capability found fs h)
    ]

candidates-All : All IsCandidate space_field_candidates
unfolding includes
candidates-All = (refl, (refl, (refl, (refl, (refl, (refl, (refl, (refl, tt))))))))

or_candidates-AreCandidates :
    (fs : List String) → All IsCandidate fs → AreCandidates (or_candidates fs)
or_candidates-AreCandidates [] h = (cc, candidates-All)
or_candidates-AreCandidates (f ∷ fs) h = (cc, h)

-- Whatever the cluster answers, there are fields to search and to aggregate by, and all of them
-- are among the candidates.
pub caps_of-AreCandidates :
    (response : Json)
    → AreCandidates (caps_of response).search_fields × AreCandidates (caps_of response).agg_fields
unfolding caps_of
caps_of-AreCandidates response =
    let found = nullish (path response ("fields" ∷ [])) (obj end) in
    (
      or_candidates-AreCandidates _
          (fields_with-All IsCandidate "searchable" found space_field_candidates candidates-All),
      or_candidates-AreCandidates _
          (fields_with-All IsCandidate "aggregatable" found space_field_candidates candidates-All),
    )
