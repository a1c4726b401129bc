-- ===== src/Security/SessionTests.antt =====
-- A session that is asked for and granted, with keys of zeros.
use sriee.Base.{
  ℕ, ◌≤◌, ◌≡◌, refl, Bool, true, false, Option, none, some, List, [], ◌∷◌, leb, str_eq, nat_eq,
  ◌==◌, str_beq_iff, sym, ap, ◌∙◌, if◌then◌else◌, arith, some_injective,
}
use sriee.Text.{Str, codes}
use sriee.Dict.{lookup, contains}
use sriee.Security.Contracts.{Versions, ContractRange, IsOrder}
use sriee.Security.Desktop.{
  DeviceStatus, Authenticator, Headers, AuthenticatedPrincipal, ok, authenticate,
}
use sriee.Security.Headers.{extract_bearer, required_text, parse_nonce}
use sriee.Security.Authority.{SessionDevice, new_authority, get_device, get_session}
use sriee.Security.Valid.{new_authority-IsValid}
use sriee.Security.Challenges.{SessionChallenge}
use sriee.Security.Stored.{IsNamed}
use sriee.Security.Session.{DeviceSessionProof, SessionService, Sessions}
use sriee.Security.Establish.{SessionGrant, Granted, grant, authenticate_session}
use sriee.Security.Entry.{IsRequest, Reads, grant_claims}
use sriee.Security.Entered.{granted-enters}
use sriee.Security.Within.{Allows}
use sriee.Security.Granted.{IsGranted, authenticate_session-IsGranted}

abbrev pub device_id : Str
device_id = codes "dev_00000000000000000000000000000000"

abbrev challenge : SessionChallenge
challenge = record {
  challenge_id = codes "chl_00000000000000000000000000000000";
  server_nonce = codes "AAAAAAAAAAAAAAAAAAAAAAAAAAAAAAAAAAAAAAAAAAA";
  backend_instance_id = codes "bkd_00000000000000000000000000000000";
  device_id = device_id;
  actor_id = codes "ann";
  issued_at = 10;
  expires_at = 30000010;
}

abbrev pub one_version : ContractRange ℕ
one_version = record { minimum = b'1'; maximum = b'1' }

abbrev pub desktop : SessionDevice ℕ
desktop = record {
  record_of = record {
    device_id = device_id;
    actor_id = codes "ann";
    status = DeviceStatus.active;
    session_epoch = 0;
    contract_range = one_version;
  };
  public_key =
      codes
        "BAAAAAAAAAAAAAAAAAAAAAAAAAAAAAAAAAAAAAAAAAAAAAAAAAAAAAAAAAAAAAAAAAAAAAAAAAAAAAAAAAAAAAA";
  public_key_algorithm = codes "ECDSA_P256_SHA256";
  public_key_format = codes "SEC1_UNCOMPRESSED";
}

abbrev pub proof : DeviceSessionProof
proof = record {
  challenge_id = challenge.challenge_id;
  device_id = device_id;
  user_session_id = codes "1";
  client_nonce = codes "123e4567-e89b-42d3-a456-426614174000";
  contract_minimum = codes "1.0.0";
  contract_maximum = codes "1.0.0";
  signature =
      codes
        "BBBBBBBBBBBBBBBBBBBBBBBBBBBBBBBBBBBBBBBBBBBBBBBBBBBBBBBBBBBBBBBBBBBBBBBBBBBBBBBBBBBBBA";
}

-- A version is the character of its major number.
abbrev parse_major : Str → Option ℕ
parse_major [] = none
parse_major (c ∷ s) = some c

abbrev majors : Versions ℕ
majors = record { parse = parse_major; le = λ a b. leb a b; text = λ a. a ∷ codes ".0.0" }

-- Every signature of this key is good, and every hash is zero.
abbrev pub service : SessionService ℕ
service = record {
  versions = majors;
  supported_contracts = one_version;
  backend_instance_id = challenge.backend_instance_id;
  challenge_lifetime = 30000000;
  session_lifetime = 300000000;
  limits = record { max_records = 2; max_per_device = 1 };
  sha256_hex = λ key. codes "0000000000000000000000000000000000000000000000000000000000000000";
  verifies = λ key signature message. true;
  encode_token = λ c. codes "token";
}

abbrev pub desktops : List (SessionDevice ℕ)
desktops = desktop ∷ []

abbrev sessions : Sessions ℕ
sessions = record {
  challenges = (challenge.challenge_id, challenge) ∷ [];
  authority = new_authority desktops;
}

abbrev pub digits : Str
digits = codes "00000000000000000000000000000000"

abbrev granted : SessionGrant
granted = record {
  access_token = codes "token";
  session_id = codes "ses_00000000000000000000000000000000";
  device_id = device_id;
  actor_id = codes "ann";
  user_session_id = codes "1";
  backend_instance_id = challenge.backend_instance_id;
  session_epoch = 1;
  contract_minimum = codes "1.0.0";
  contract_maximum = codes "1.0.0";
  issued_at = 20;
  expires_at = 300000020;
}

abbrev later : Sessions ℕ
later = (authenticate_session service digits (codes "t") 20 proof sessions).0

is_granted :
    authenticate_session service digits (codes "t") 20 proof sessions ≡ (later, grant granted)
unfolding authenticate_session sriee.Text.prefixed sriee.Base.str_beq sriee.Text.is_word
    new_authority sriee.Text.is_space
is_granted = refl

session_new :
    contains (codes "ses_00000000000000000000000000000000") sessions.authority.sessions ≡ false
unfolding lookup new_authority
session_new = refl

named_one :
    (b : Bool) (i : Str) (c : SessionChallenge)
    → (b ≡ true → challenge.challenge_id ≡ i)
    → (if b then some challenge else none) ≡ some c
    → c.challenge_id ≡ i
named_one true i c same h =
    ap (λ (r : SessionChallenge). r.challenge_id) (sym (some_injective h)) ∙ same refl
named_one false i c same h = cc

challenge-IsNamed : IsNamed sessions.challenges
unfolding lookup
challenge-IsNamed i c h =
    named_one (challenge.challenge_id == i) i c (str_beq_iff challenge.challenge_id i).0 h

authenticate_session-IsGranted_example :
    IsGranted service (codes "t") 20 proof sessions later granted
authenticate_session-IsGranted_example =
    authenticate_session-IsGranted service digits (codes "t") 20 proof sessions later granted
      challenge-IsNamed (new_authority-IsValid desktops) session_new is_granted

-- A desktop that reads this authority.
abbrev desk : Authenticator ℕ
desk = record {
  versions = majors;
  supported_contracts = one_version;
  decode = λ t. some (grant_claims (codes "t") granted);
  get_device = get_device later.authority;
  get_session = get_session later.authority;
}

abbrev headers : Headers
headers = record {
  authorization = some (codes "Bearer token");
  device_id = some device_id;
  contract_version = some (codes "1.0.0");
  request_nonce = some (codes "123e4567-e89b-42d3-a456-426614174000");
}

headers-IsRequest :
    IsRequest desk
      (codes "token")
      device_id
      b'1'
      (codes "123e4567-e89b-42d3-a456-426614174000")
      headers
unfolding extract_bearer required_text parse_nonce sriee.Base.str_beq sriee.Text.is_space
headers-IsRequest = record {
  bearer = refl;
  own_device = refl;
  version_text = codes "1.0.0";
  has_version = refl;
  version = refl;
  has_nonce = refl;
}

pub majors-IsOrder : IsOrder majors
majors-IsOrder = record { trans = λ a b c h k. ground arith; total = λ a b h. ground arith }

desk-Reads : Reads desk service later.authority 1000 (grant_claims (codes "t") granted)
desk-Reads = record {
  same_versions = refl;
  same_supported = refl;
  devices = refl;
  sessions = refl;
  decodes = λ h k. refl;
}

granted-Allows : Allows service granted b'1'
granted-Allows = record {
  minimum = b'1';
  maximum = b'1';
  low = refl;
  high = refl;
  above = refl;
  below = refl;
}

granted-enters_example :
    (p : AuthenticatedPrincipal ℕ) × ((authenticate desk 1000 1000 headers []).1 ≡ ok p)
    × (p.session_id ≡ granted.session_id)
    × (p.device_id ≡ device_id)
    × (p.actor_id ≡ codes "ann")
    × (p.contract_version ≡ b'1')
unfolding lookup
granted-enters_example =
    granted-enters service digits (codes "t") 20 1000 1000 proof sessions later granted desk headers
      b'1' (codes "123e4567-e89b-42d3-a456-426614174000") [] challenge-IsNamed
      (new_authority-IsValid desktops) session_new is_granted majors-IsOrder (λ a. refl) desk-Reads
      headers-IsRequest granted-Allows (omega arith) (omega arith) tt refl

-- The challenge is gone: the same proof is of no use.
again_failed : (authenticate_session service digits (codes "t") 21 proof later).1 ≡ Granted.failed
unfolding authenticate_session sriee.Text.prefixed sriee.Base.str_beq sriee.Text.is_word
    new_authority
again_failed = refl
