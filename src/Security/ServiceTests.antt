-- ===== src/Security/ServiceTests.antt =====
-- Calls of the session service, from the question of a desktop to its session, with keys of zeros.
use sriee.Base.{
  ℕ, zero, suc, ◌≡◌, refl, Bool, true, false, Option, none, some, List, [], ◌∷◌, ◌++◌, str_eq,
  nat_eq, arith,
}
use sriee.Text.{Str, codes}
use sriee.Dict.{Dict, lookup, contains}
use sriee.Security.Authority.{new_authority}
use sriee.Security.Base64.RoundTrip.{AllBelow}
use sriee.Security.Valid.{new_authority-IsValid}
use sriee.Security.Session.{Sessions, new_challenge, issue_session_challenge}
use sriee.Security.Establish.{SessionGrant, grant, authenticate_session}
use sriee.Security.Asked.{CanAsk, HasRoom}
use sriee.Security.Welcome.{Answers, Answers-grants}
use sriee.Security.Service.{
  ServiceCall, asks, proves, serve_all, AllNew, new_sessions, IsSound, empty-IsStored,
  service-IsSound,
}
use sriee.Security.SessionTests.{
  device_id, one_version, desktop, proof, service, desktops, digits, majors-IsOrder,
}

abbrev zero_bytes : ℕ → List ℕ
zero_bytes zero = []
zero_bytes (suc n) = 0 ∷ zero_bytes n

zero_bytes-AllBelow : (n : ℕ) → AllBelow 256 (zero_bytes n)
zero_bytes-AllBelow zero = tt
zero_bytes-AllBelow (suc n) = (omega arith, zero_bytes-AllBelow n)

abbrev zeros : List ℕ
zeros = zero_bytes 32

abbrev first : Sessions ℕ
first = new_sessions service desktops

desktop-CanAsk : CanAsk service digits zeros device_id desktop first
unfolding lookup new_authority sriee.Base.str_beq sriee.Security.Session.is_device_id
    sriee.Text.prefixed sriee.Text.is_hex sriee.Security.Session.is_challenge_id
    sriee.Security.Session.is_backend_id
desktop-CanAsk = record {
  registered = refl;
  is_active = refl;
  has_actor = refl;
  own_id = refl;
  new_id = refl;
  backend = refl;
  bytes = zero_bytes-AllBelow 32;
  size = refl;
  lifetime = omega arith;
}

first-HasRoom :
    HasRoom service.limits 11 (new_challenge service digits zeros 10 desktop) first.challenges
unfolding lookup sriee.Dict.keep_values sriee.Security.Challenges.count_of
first-HasRoom = record { is_new = refl; in_all = omega arith; of_device = omega arith }

desktop-Answers :
    Answers service
      (new_challenge service digits zeros 10 desktop)
      desktop
      proof
      one_version
      one_version
unfolding lookup sriee.Security.Session.valid_proof sriee.Text.prefixed sriee.Base.str_beq
    sriee.Security.Prove.is_key_of sriee.Security.Prove.verify_device_signature
    sriee.Security.Contracts.parse_range sriee.Security.Contracts.intersect
desktop-Answers = record {
  shaped = refl;
  same_challenge = refl;
  same_device = refl;
  supports_key = refl;
  has_key = refl;
  signed = refl;
  asks = refl;
  negotiates = refl;
}

Answers-grants_example :
    (t u : Sessions ℕ) × (g : SessionGrant) × (issue_session_challenge service digits zeros 10 11
        device_id first
      ≡ (t, some (new_challenge service digits zeros 10 desktop)))
    × (authenticate_session service digits (codes "t") 20 proof t ≡ (u, grant g))
unfolding sriee.Security.Session.is_session_id sriee.Text.prefixed sriee.Text.is_hex
    sriee.Text.strip sriee.Text.is_space
Answers-grants_example =
    Answers-grants service digits zeros 10 11 device_id desktop first digits (codes "t") 20 proof
      one_version one_version (new_authority-IsValid desktops) (empty-IsStored service)
      desktop-CanAsk first-HasRoom desktop-Answers (omega arith) (omega arith) majors-IsOrder
      (omega arith) refl refl

-- A session, the same proof again, and a challenge behind it.
abbrev calls : List ServiceCall
calls =
    asks digits zeros 10 11 device_id
    ∷ proves digits (codes "t") 20 proof
    ∷ proves (codes "1") (codes "u") 30 proof
    ∷ asks digits zeros 40 41 device_id
    ∷ []

calls_new : AllNew service calls first
unfolding lookup new_authority serve_all sriee.Text.prefixed sriee.Base.str_beq sriee.Text.is_word
calls_new = (tt, (refl, (refl, (tt, tt))))

service-IsSound_example : IsSound service (serve_all service calls first)
service-IsSound_example = service-IsSound service desktops calls calls_new
