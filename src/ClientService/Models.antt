-- ===== src/ClientService/Models.antt =====
-- services/client_service_rs/src/models.rs: names of harnesses, gateways and connection flavors, the
-- format of identities, and environment texts.
use agentspace.Common.{
  ℕ, zero, suc, ◌-◌, ◌≡◌, refl, Bool, true, false, not, ◌&&◌, ◌||◌, Option, none, some, List, [],
  ◌∷◌, leb, if◌then◌else◌, length, slice, PartialEq, ◌==◌, nat_eq, list_eq, option_eq, put, Bytes,
  codes, starts_with, split, trim,
}
use agentspace.Common.{derived}

pub data HarnessName : Type 0 where
  acp copilot_cli codex opencode claude_code echo : HarnessName

pub data CliHarnessName : Type 0 where
  cli_copilot_cli : CliHarnessName

pub data GatewayType : Type 0 where
  echo_gateway discord_gateway : GatewayType

pub data ConnectionApiFlavor : Type 0 where
  chat_completions responses : ConnectionApiFlavor

unfoldable pub harness_as_str : HarnessName → Bytes
harness_as_str acp = codes "acp"
harness_as_str copilot_cli = codes "copilot-cli"
harness_as_str codex = codes "codex"
harness_as_str opencode = codes "opencode"
harness_as_str claude_code = codes "claude-code"
harness_as_str echo = codes "echo"

unfoldable pub harness_from_str : Bytes → Option HarnessName
harness_from_str value =
    if value == codes "acp"
    then some acp
    else if value == codes "copilot-cli"
    then some copilot_cli
    else if value == codes "codex"
    then some codex
    else if value == codes "opencode"
    then some opencode
    else if value == codes "claude-code"
    then some claude_code
    else if value == codes "echo"
    then some echo
    else none

abbrev harness_code : HarnessName → ℕ
harness_code acp = 0
harness_code copilot_cli = 1
harness_code codex = 2
harness_code opencode = 3
harness_code claude_code = 4
harness_code echo = 5

abbrev harness_of : ℕ → HarnessName
harness_of zero = acp
harness_of (suc zero) = copilot_cli
harness_of (suc (suc zero)) = codex
harness_of (suc (suc (suc zero))) = opencode
harness_of (suc (suc (suc (suc zero)))) = claude_code
harness_of (suc (suc (suc (suc (suc n))))) = echo

harness_back : (h : HarnessName) → harness_of (harness_code h) ≡ h
harness_back acp = refl
harness_back copilot_cli = refl
harness_back codex = refl
harness_back opencode = refl
harness_back claude_code = refl
harness_back echo = refl

abbrev cli_of : ℕ → CliHarnessName
cli_of n = cli_copilot_cli

cli_back : (h : CliHarnessName) → cli_of 0 ≡ h
cli_back cli_copilot_cli = refl

abbrev gateway_code : GatewayType → ℕ
gateway_code echo_gateway = 0
gateway_code discord_gateway = 1

abbrev gateway_of : ℕ → GatewayType
gateway_of zero = echo_gateway
gateway_of (suc n) = discord_gateway

gateway_back : (h : GatewayType) → gateway_of (gateway_code h) ≡ h
gateway_back echo_gateway = refl
gateway_back discord_gateway = refl

abbrev flavor_code : ConnectionApiFlavor → ℕ
flavor_code chat_completions = 0
flavor_code responses = 1

abbrev flavor_of : ℕ → ConnectionApiFlavor
flavor_of zero = chat_completions
flavor_of (suc n) = responses

flavor_back : (h : ConnectionApiFlavor) → flavor_of (flavor_code h) ≡ h
flavor_back chat_completions = refl
flavor_back responses = refl

instance pub harness_eq : PartialEq HarnessName
harness_eq = derived harness_code harness_of harness_back

instance pub cli_eq : PartialEq CliHarnessName
cli_eq = derived (λ _. 0) cli_of cli_back

instance pub gateway_eq : PartialEq GatewayType
gateway_eq = derived gateway_code gateway_of gateway_back

instance pub flavor_eq : PartialEq ConnectionApiFlavor
flavor_eq = derived flavor_code flavor_of flavor_back

-- `segment.bytes().all(&is_allowed)`
abbrev pub all_bytes : (ℕ → Bool) → Bytes → Bool
all_bytes is_allowed [] = true
all_bytes is_allowed (b ∷ s) = is_allowed b && all_bytes is_allowed s

abbrev pub is_ascii_lowercase : ℕ → Bool
is_ascii_lowercase b = leb b'a' b && leb b b'z'

abbrev pub is_ascii_uppercase : ℕ → Bool
is_ascii_uppercase b = leb b'A' b && leb b b'Z'

abbrev pub is_ascii_digit : ℕ → Bool
is_ascii_digit b = leb b'0' b && leb b b'9'

abbrev dash_segments : (ℕ → Bool) → List Bytes → Bool
dash_segments is_allowed [] = true
dash_segments is_allowed (segment ∷ rest) =
    not (segment == []) && all_bytes is_allowed segment && dash_segments is_allowed rest

unfoldable pub validate_dash_id : (ℕ → Bool) → Bytes → Bool
validate_dash_id is_allowed value = not (value == []) && dash_segments is_allowed (split b'-' value)

unfoldable pub validate_alpha_dash_id : Bytes → Bool
unfolding validate_dash_id
validate_alpha_dash_id value = validate_dash_id is_ascii_lowercase value

unfoldable pub validate_alphanumeric_dash_id : Bytes → Bool
unfolding validate_dash_id
validate_alphanumeric_dash_id value =
    validate_dash_id (λ b. is_ascii_lowercase b || is_ascii_digit b) value

abbrev before : ℕ → Option (Bytes × Bytes) → Option (Bytes × Bytes)
before c none = none
before c (some (l, r)) = some (c ∷ l, r)

-- `split_once`: what stands before the first occurrence of a byte, and what stands behind it.
unfoldable pub split_once : ℕ → Bytes → Option (Bytes × Bytes)
split_once b [] = none
split_once b (c ∷ s) = let rest = before c (split_once b s) in if c == b then some ([], s) else rest

abbrev last_byte : ℕ → Bytes → ℕ
last_byte d [] = d
last_byte d (c ∷ s) = last_byte c s

abbrev is_quoted : Bytes → ℕ → Bool
is_quoted [] quote = false
is_quoted (c ∷ []) quote = false
is_quoted (c ∷ d ∷ s) quote = c == quote && last_byte d s == quote

unfoldable pub trim_matching_quotes : Bytes → Bytes
trim_matching_quotes value =
    if is_quoted value b'\'' || is_quoted value b'"'
    then slice 1 (length value - 1) value
    else value

abbrev or_whole : Bytes → Option (Bytes × Bytes) → Bytes × Bytes
or_whole line none = (line, [])
or_whole line (some parts) = parts

-- What one line sets. Trimming also takes off the carriage return that `lines` takes off.
unfoldable pub parse_env_line : Bytes → Option (Bytes × Bytes)
unfolding trim_matching_quotes split_once
parse_env_line raw_line =
    let line = trim raw_line in
    let parts = or_whole line (split_once b'=' line) in
    if line == [] || starts_with (codes "#") line
    then none
    else if trim parts.0 == []
    then none
    else some (trim parts.0, trim_matching_quotes (trim parts.1))

abbrev pub Env : Type 0
Env = List (Bytes × Bytes)

abbrev pub put_if : Option (Bytes × Bytes) → Env → Env
put_if none env = env
put_if (some (key, value)) env = put key value env

unfoldable pub parse_env_lines : List Bytes → Env → Env
unfolding parse_env_line
parse_env_lines [] env = env
parse_env_lines (line ∷ rest) env = parse_env_lines rest (put_if (parse_env_line line) env)

-- A later line of a key replaces an earlier one.
unfoldable pub parse_env_vars : Bytes → Env
unfolding parse_env_lines
parse_env_vars raw = parse_env_lines (split 10 raw) []
