-- ===== src/Patterns.antt =====
-- The identifier patterns that the modules of the program compile, as tests on a whole text.
-- `re.fullmatch` of a character class with `+` is a test of every character of a non-empty text.
use football_prediction_craw.Prelude.{ℕ, Bool, ◌||◌, String, ◌==◌}
use football_prediction_craw.Prelude.Text.{codes, is_digit, is_lower, is_upper, full_match}

-- `[a-z0-9_-]`
unfoldable pub source_char : ℕ → Bool
unfolding is_digit is_lower
source_char c = is_lower c || is_digit c || c == b'_' || c == b'-'

-- `_SOURCE_ID.fullmatch(text)`, `[a-z0-9_-]+`
unfoldable pub is_source_id : String → Bool
unfolding full_match source_char
is_source_id text = full_match source_char (codes text)

-- `[A-Za-z0-9_.:-]`
unfoldable pub task_char : ℕ → Bool
unfolding is_digit is_lower is_upper
task_char c =
    is_upper c || is_lower c || is_digit c || c == b'_' || c == b'.' || c == b':' || c == b'-'

-- `_TASK_ID.fullmatch(text)`, `[A-Za-z0-9_.:-]+`
unfoldable pub is_task_id : String → Bool
unfolding full_match task_char
is_task_id text = full_match task_char (codes text)

-- `[a-z_]`
unfoldable pub event_char : ℕ → Bool
unfolding is_lower
event_char c = is_lower c || c == b'_'

-- `_EVENT_NAME.fullmatch(text)`, `[a-z_]+`
unfoldable pub is_event_name : String → Bool
unfolding full_match event_char
is_event_name text = full_match event_char (codes text)

-- `[a-z0-9_]`
unfoldable pub profile_char : ℕ → Bool
unfolding is_digit is_lower
profile_char c = is_lower c || is_digit c || c == b'_'

-- `_PROFILE_REFERENCE_PATTERN.fullmatch(text)`, `[a-z0-9_]+`
unfoldable pub is_profile_reference : String → Bool
unfolding full_match profile_char
is_profile_reference text = full_match profile_char (codes text)
