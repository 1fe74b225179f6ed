-- ===== src/Io/Ready.antt =====
-- How a channel is set up by the Zaptel backend.
use openr.Prelude.{
  ◌≡◌, refl, ◌↔◌, Bool, true, false, if◌then◌else◌, Option, none, some, List, [], ◌∷◌,
}
use openr.Io.{
  Request, IoError, Setup, request_each, first_requests, later_requests, error_or, zt_setup,
}

-- No request of the list fails.
abbrev pub all_succeed : (Request → Bool) → List Request → Bool
all_succeed fails [] = true
all_succeed fails (q ∷ qs) = if fails q then false else all_succeed fails qs

one_request :
    (b : Bool) (q : Request) (later : Setup) (rest : Bool)
    → (later.error ≡ none) ↔ (rest ≡ true)
    → ((if◌then◌else◌ {A = Setup} b
          (record { made = q ∷ []; error = some IoError.syscall_failed })
          (record { made = q ∷ later.made; error = later.error })).error
        ≡ none)
      ↔ ((if b then false else rest) ≡ true)
one_request true q later rest h = (λ x. cc, λ x. cc)
one_request false q later rest h = h

request_each_succeeds :
    (fails : Request → Bool) (qs : List Request)
    → ((request_each fails qs).error ≡ none) ↔ (all_succeed fails qs ≡ true)
request_each_succeeds fails [] = (λ h. refl, λ h. refl)
request_each_succeeds fails (q ∷ qs) =
    one_request (fails q) q (request_each fails qs) (all_succeed fails qs)
      (request_each_succeeds fails qs)

both_succeed :
    (first second : Option IoError)
    → (error_or first second ≡ none) ↔ ((first ≡ none) × (second ≡ none))
both_succeed none second = (λ h. (refl, h), λ h. h.1)
both_succeed (some e) second = (λ h. elim (no_error e h) [ ], λ h. h.0)
  where
    no_error : (e : IoError) → ◌≡◌ {A = Option IoError} (some e) none → ⊥
    no_error e h = cc

-- The error of the second part, which a channel without CAS signaling does not come to.
later_succeeds :
    (is_cas : Bool) (later : Setup) (rest : Bool)
    → (later.error ≡ none) ↔ (rest ≡ true)
    → ((if◌then◌else◌ {A = Setup} is_cas later
          (record { made = []; error = some IoError.invalid_chan_signaling })).error
        ≡ none)
      ↔ ((is_cas ≡ true) × (rest ≡ true))
later_succeeds true later rest h = (λ x. (refl, h.0 x), λ x. h.1 x.1)
later_succeeds false later rest h = (λ x. cc, λ x. cc)

-- zt_setup succeeds if and only if the channel has CAS signaling and each of its requests succeeds.
pub zt_setup_succeeds :
    (fails : Request → Bool) (is_cas : Bool)
    → ((zt_setup fails is_cas).error ≡ none) ↔ (
        (all_succeed fails first_requests ≡ true)
        × ((is_cas ≡ true) × (all_succeed fails later_requests ≡ true)))
unfolding zt_setup
zt_setup_succeeds fails is_cas =
    let first = request_each_succeeds fails first_requests in
    let later =
      later_succeeds is_cas (request_each fails later_requests) (all_succeed fails later_requests)
        (request_each_succeeds fails later_requests) in
    let both = both_succeed (request_each fails first_requests).error _ in
    (λ h. let x = both.0 h in (first.0 x.0, later.0 x.1), λ h. both.1 (first.1 h.0, later.1 h.1))
