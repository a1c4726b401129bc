-- ===== src/Security/Tests.antt =====
-- The desktop's requests on concrete sessions, tokens and nonces.
use sriee.Base.{
  ℕ, ◌+◌, ◌≡◌, refl, Bool, true, false, Option, none, some, List, [], ◌∷◌, leb, ltb, str_eq, nat_eq,
  ◌==◌, if◌then◌else◌, arith, ◌≢◌,
}
use sriee.Text.{Str, codes}
use sriee.Dict.{lookup, insert}
use sriee.Security.Nonces.{Nonces, Use, answers, promised, answers-eq-promised, consume, key_eq}
use sriee.Security.Contracts.{Versions, ContractRange, IsOrder}
use sriee.Security.Desktop.{
  DeviceStatus, Claims, AuthenticatedPrincipal, Headers, ok, Authenticator, identified,
  authenticate,
}
use sriee.Security.Authority.{
  SessionDevice, Authority, Rotation, rotate_session, get_device, get_session, new_authority,
}
use sriee.Security.Valid.{IsValid}
use sriee.Security.Rotations.{after, AllNew, NoKeyError, authority-IsValid}
use sriee.Security.Genuine.{IsGenuine, authenticate-IsGenuine}
use sriee.Security.Replayed.{second_request}

-- A nonce that is used, used again, and used again behind its expiry.
abbrev uses : List Use
uses =
    record { now = 1; key = (codes "s", codes "n"); expires_at = 5 }
    ∷ record { now = 2; key = (codes "s", codes "n"); expires_at = 9 }
    ∷ record { now = 6; key = (codes "s", codes "n"); expires_at = 9 }
    ∷ []

uses_answered : answers [] uses ≡ true ∷ false ∷ true ∷ []
unfolding answers consume lookup insert sriee.Base.str_beq
uses_answered = refl

answers-eq-promised_example : answers [] uses ≡ promised [] uses
answers-eq-promised_example =
    answers-eq-promised uses (omega arith, (omega arith, (omega arith, tt)))

-- Versions are numbers here, and every text is version 1.
abbrev numbers : Versions ℕ
numbers = record { parse = λ s. some 1; le = λ a b. leb a b; text = λ a. codes "1" }

numbers-IsOrder : IsOrder numbers
numbers-IsOrder = record { trans = λ a b c h k. ground arith; total = λ a b h. ground arith }

abbrev one_version : ContractRange ℕ
one_version = record { minimum = 1; maximum = 1 }

abbrev laptop : SessionDevice ℕ
laptop = record {
  record_of = record {
    device_id = codes "laptop";
    actor_id = codes "ann";
    status = DeviceStatus.active;
    session_epoch = 0;
    contract_range = one_version;
  };
  public_key = codes "k";
  public_key_algorithm = codes "Ed25519";
  public_key_format = codes "raw";
}

abbrev laptops : List (SessionDevice ℕ)
laptops = laptop ∷ []

abbrev rotation : ℕ → Rotation ℕ
rotation epoch = record {
  device_id = codes "laptop";
  actor_id = codes "ann";
  expected_epoch = epoch;
  user_session_id = [];
  backend_instance_id = [];
  contract_range = one_version;
  issued_at = epoch;
  expires_at = 9000000;
}

abbrev rotations : List (Str × Rotation ℕ)
rotations = (codes "s1", rotation 0) ∷ (codes "s2", rotation 1) ∷ []

rotations_new : AllNew (new_authority laptops) rotations
unfolding rotate_session lookup new_authority sriee.Base.str_beq
rotations_new = (refl, (refl, tt))

authority-IsValid_example :
    IsValid (after (new_authority laptops) rotations) × NoKeyError (new_authority laptops) rotations
authority-IsValid_example = authority-IsValid laptops rotations rotations_new

abbrev authority : Authority ℕ
authority = after (new_authority laptops) rotations

abbrev claims : Claims
claims = record {
  token_type = codes "desktop_session";
  subject = codes "ann";
  token_id = codes "t";
  device_id = codes "laptop";
  session_id = codes "s2";
  session_epoch = some 2;
  contract_min = codes "1";
  contract_max = codes "1";
  user_session_id = [];
  backend_instance_id = [];
  expires = 2;
  issued = 1;
}

abbrev authenticator : Authenticator ℕ
authenticator = record {
  versions = numbers;
  supported_contracts = one_version;
  decode = λ t. some claims;
  get_device = get_device authority;
  get_session = get_session authority;
}

abbrev nonce : Str
nonce = codes "123e4567-e89b-42d3-a456-426614174000"

abbrev headers : Headers
headers = record {
  authorization = some (codes "Bearer abc");
  device_id = some (codes "laptop");
  contract_version = some (codes "1");
  request_nonce = some nonce;
}

abbrev principal : AuthenticatedPrincipal ℕ
principal = record {
  actor_id = codes "ann";
  device_id = codes "laptop";
  session_id = codes "s2";
  token_id = codes "t";
  contract_version = 1;
  contract_range = one_version;
  issued_at = 1000000;
  expires_at = 2000000;
}

identified_first : identified authenticator 3500000 headers ≡ ok (principal, nonce)
unfolding identified get_device get_session lookup after rotate_session sriee.Base.str_beq
    sriee.Text.is_space new_authority
identified_first = refl

identified_again : identified authenticator 3600000 headers ≡ ok (principal, nonce)
unfolding identified get_device get_session lookup after rotate_session sriee.Base.str_beq
    sriee.Text.is_space new_authority
identified_again = refl

abbrev spent_nonces : Nonces
spent_nonces = ((codes "s2", nonce), 2000000) ∷ []

-- A second and a half behind the expiry of the token, within the leeway of its decoding.
accepted : authenticate authenticator 3500000 3500000 headers [] ≡ (spent_nonces, ok principal)
unfolding authenticate
accepted = rw identified_first refl

authenticate-IsGenuine_example : IsGenuine authority authenticator 3500000 principal
authenticate-IsGenuine_example =
    authenticate-IsGenuine authority authenticator 3500000 3500000 headers [] spent_nonces principal
      authority-IsValid_example.0 numbers-IsOrder refl refl accepted

-- Then the same request is accepted again.
second_request_example :
    (authenticate authenticator 3600000 3600000 headers spent_nonces).1 ≡ ok principal
second_request_example =
    second_request authenticator authenticator 3500000 3500000 3600000 3600000 headers headers []
      spent_nonces principal principal nonce tt accepted identified_first identified_again refl
