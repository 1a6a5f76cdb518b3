-- ===== src/Rewards/Text.antt =====
-- The text functions of the rewards backend: reward-utils.ts, and `normalizeXUsername` and
-- `normalizeText` of x.service.ts (rewards-backend/src/rewards).
pub mod Laws
use Prim.Native.Char.{Char, code}
use Prim.Native.String.{String}
use smartcupleague.Prelude.{
  ℕ, zero, suc, ◌+◌, ◌-◌, ◌*◌, ◌/◌, ◌%◌, Option, none, some, Bool, true, false, ◌&&◌, ◌||◌, List,
  [], ◌∷◌, ltb, leb, ascii, nat_eq, string_eq, ◌==◌, if◌then◌else◌, includes, or_else,
  to_lower_case,
}
use smartcupleague.Action.{Result, ok, err, bad_request}

unfoldable pub vara_to_planck : ℕ → ℕ
vara_to_planck vara = vara * 1_000_000_000_000

-- The white space that `trim` and `\s` know.
unfoldable pub is_space : Char → Bool
is_space c =
    let n = code c in
    leb 9 n && leb n 13
    || n == 32
    || n == 160
    || n == 5760
    || leb 8192 n && leb n 8202
    || n == 8232
    || n == 8233
    || n == 8239
    || n == 8287
    || n == 12288
    || n == 65279

unfoldable pub trim_start : String → String
unfolding is_space
trim_start String.[] = String.[]
trim_start (String.◌∷◌ c s) = let rest = trim_start s in if is_space c then rest else String.◌∷◌ c s

abbrev pub is_empty : String → Bool
is_empty String.[] = true
is_empty (String.◌∷◌ c s) = false

unfoldable pub trim_end : String → String
unfolding is_space
trim_end String.[] = String.[]
trim_end (String.◌∷◌ c s) =
    let rest = trim_end s in if is_empty rest && is_space c then String.[] else String.◌∷◌ c rest

unfoldable pub trim : String → String
unfolding trim_start trim_end
trim s = trim_end (trim_start s)

-- `[0-9]`, `[0-9a-fA-F]` and `[a-z0-9_]`
abbrev pub is_digit : Char → Bool
is_digit c = leb b'0' (code c) && leb (code c) b'9'

abbrev pub is_hex : Char → Bool
is_hex c =
    is_digit c || leb b'a' (code c) && leb (code c) b'f' || leb b'A' (code c) && leb (code c) b'F'

abbrev pub is_name_char : Char → Bool
is_name_char c = is_digit c || leb b'a' (code c) && leb (code c) b'z' || code c == b'_'

-- The text is `n` hexadecimal digits.
unfoldable pub is_hex_of : ℕ → String → Bool
is_hex_of zero String.[] = true
is_hex_of zero (String.◌∷◌ c s) = false
is_hex_of (suc n) String.[] = false
is_hex_of (suc n) (String.◌∷◌ c s) = is_hex c && is_hex_of n s

-- `/^0x[0-9a-fA-F]{64}$/`
unfoldable pub is_actor_id : String → Bool
unfolding is_hex_of
is_actor_id String.[] = false
is_actor_id (String.◌∷◌ c String.[]) = false
is_actor_id (String.◌∷◌ c (String.◌∷◌ d s)) = code c == b'0' && code d == b'x' && is_hex_of 64 s

-- A digit of `toString(16)`
unfoldable pub hex_char : ℕ → Char
unfolding ascii
hex_char n = ascii (if ltb n 10 then b'0' + n else b'a' + (n - 10))

-- The bytes in hexadecimal, two digits each: `b.toString(16).padStart(2, '0')`
unfoldable pub hex_of : List ℕ → String
unfolding hex_char
hex_of [] = String.[]
hex_of (b ∷ bytes) = String.◌∷◌ (hex_char (b / 16)) (String.◌∷◌ (hex_char (b % 16)) (hex_of bytes))

-- `0x${digits}`
unfoldable pub zero_x : String → String
unfolding ascii
zero_x digits = String.◌∷◌ (ascii b'0') (String.◌∷◌ (ascii b'x') digits)

-- `decode` stands for @polkadot/util-crypto's `decodeAddress`.
unfoldable pub normalize_actor_id : (String → Option (List ℕ)) → String → Result String
unfolding trim is_actor_id hex_of zero_x
normalize_actor_id decode wallet_or_actor_id =
    let value = trim wallet_or_actor_id in
    if is_actor_id value then ok (to_lower_case value) else elim (decode value) [
      | some bytes ↦ ok (zero_x (hex_of bytes))
      | none ↦ err (bad_request "wallet must be a valid Vara address or 0x actor id")
    ]

unfoldable pub strip_prefix : String → String → Option String
strip_prefix String.[] s = some s
strip_prefix (String.◌∷◌ c p) String.[] = none
strip_prefix (String.◌∷◌ c p) (String.◌∷◌ d s) =
    let rest = strip_prefix p s in if code c == code d then rest else none

-- `(\d+)`: the digits that a text begins with, if there is one.
abbrev pub leading_digits : String → String
leading_digits String.[] = ""
leading_digits (String.◌∷◌ c s) =
    let rest = leading_digits s in if is_digit c then String.◌∷◌ c rest else ""

abbrev pub digits_after_slash : String → Option String
digits_after_slash String.[] = none
digits_after_slash (String.◌∷◌ c s) =
    let digits = leading_digits s in
    if code c == b'/' then if is_empty digits then none else some digits else none

-- `/\/status(?:es)?\/(\d+)/` at the start of a text, and at its first place.
unfoldable pub status_here : String → Option String
unfolding strip_prefix
status_here s = elim (strip_prefix "/status" s) [
  | none ↦ none
  | some rest ↦ elim (strip_prefix "es" rest) [
    | some after ↦ or_else (digits_after_slash after) (digits_after_slash rest)
    | none ↦ digits_after_slash rest
  ]
]

unfoldable pub find_status : String → Option String
unfolding status_here
find_status String.[] = status_here ""
find_status (String.◌∷◌ c s) = or_else (status_here (String.◌∷◌ c s)) (find_status s)

-- `split('/').filter(Boolean)[0]`
abbrev pub until_slash : String → String
until_slash String.[] = ""
until_slash (String.◌∷◌ c s) =
    let rest = until_slash s in if code c == b'/' then "" else String.◌∷◌ c rest

unfoldable pub first_segment : String → Option String
first_segment String.[] = none
first_segment (String.◌∷◌ c s) =
    let rest = first_segment s in
    if code c == b'/' then rest else some (String.◌∷◌ c (until_slash s))

-- `replace(/^@/, '')`
unfoldable pub without_at : String → String
without_at String.[] = ""
without_at (String.◌∷◌ c s) = if code c == b'@' then s else String.◌∷◌ c s

-- `/^[a-z0-9_]{1,15}$/`
unfoldable pub is_name_of_at_most : ℕ → String → Bool
is_name_of_at_most n String.[] = true
is_name_of_at_most zero (String.◌∷◌ c s) = false
is_name_of_at_most (suc n) (String.◌∷◌ c s) = is_name_char c && is_name_of_at_most n s

unfoldable pub is_x_username : String → Bool
unfolding is_name_of_at_most
is_x_username String.[] = false
is_x_username (String.◌∷◌ c s) = is_name_of_at_most 15 (String.◌∷◌ c s)

unfoldable pub normalize_x_username : Option String → String → Result String
unfolding trim without_at is_x_username
normalize_x_username none message = err (bad_request message)
normalize_x_username (some value) message =
    let normalized = to_lower_case (without_at (trim value)) in
    if is_x_username normalized then ok normalized else err (bad_request message)

-- What `new URL` makes of a text that it accepts.
pub record Url : Type 0 where
  pub hostname : String
  pub pathname : String

pub record ParsedTweetUrl : Type 0 where
  pub tweet_id : String
  pub username : Option String

-- `parse` stands for `new URL`.
unfoldable pub parse_tweet_url : (String → Option Url) → String → Result ParsedTweetUrl
unfolding find_status first_segment without_at is_x_username
parse_tweet_url parse tweet_url = elim (parse tweet_url) [
  | none ↦ err (bad_request "tweetUrl must be a valid URL")
  | some parsed ↦
      if includes (to_lower_case parsed.hostname)
        ("x.com" ∷ "twitter.com" ∷ "www.x.com" ∷ "www.twitter.com" ∷ [])
      then elim (find_status parsed.pathname) [
        | none ↦ err (bad_request "tweetUrl must include /status/<tweet id>")
        | some tweet_id ↦
            ok (record { tweet_id = tweet_id; username = username_in parsed.pathname })
      ]
      else err (bad_request "tweetUrl must point to x.com or twitter.com")
]
  where
    username_in : String → Option String
    username_in pathname = elim (first_segment pathname) [
      | none ↦ none
      | some segment ↦
          let username = to_lower_case (without_at segment) in
          if is_x_username username then some username else none
    ]
