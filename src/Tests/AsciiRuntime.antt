-- ===== src/Tests/AsciiRuntime.antt =====
-- A run time for the examples: Python's functions on ASCII texts, a parser that knows one body, a
-- digest that depends on the lengths only.
use Prim.Native.Char.{Char, code}
use Prim.Native.String.{char_at}
use hermes_plugin_async_thre.Prelude.{
  Bool, List, String, [], false, if◌then◌else◌, leb, length, nat_eq, none, not, pos, some, ℕ, ◌&&◌,
  ◌-◌, ◌==◌, ◌||◌, ◌∷◌,
}
use hermes_plugin_async_thre.Python.Except.{ok, overflow_error, raise}
use hermes_plugin_async_thre.Python.Json.{Fields, end, field, int, obj, text}
use hermes_plugin_async_thre.Python.Runtime.{Runtime}

abbrev lower_char : Char → Char
lower_char c =
    if leb 65 (code c) && leb (code c) 90
    then char_at "abcdefghijklmnopqrstuvwxyz" (code c - 65)
    else c

abbrev lower_text : String → String
lower_text String.[] = ""
lower_text (String.◌∷◌ c s) = String.◌∷◌ (lower_char c) (lower_text s)

abbrev between : ℕ → ℕ → ℕ → Bool
between low high n = leb low n && leb n high

-- an event of the producer `ci` for the listener `ath_1`
abbrev pub sample_event : Fields
sample_event = field "version" (text "async-thread-event/v1") (
    field "eventId" (text "run:1") (
      field "eventType" (text "ci.run.finished") (
        field "producer" (obj (field "id" (text "ci") end)) (
          field "asyncThread" (obj (field "threadKey" (text "ath_1") end)) (
            field "occurredAt" (int (pos 100))
              (field "summary" (text "done") (field "workflowId" (text "wf") end)))))))

-- the body that stands for the sample event
abbrev pub sample_body : List ℕ
sample_body = 1 ∷ []

instance abbrev pub ascii_runtime : Runtime
ascii_runtime = record {
  is_space = λ c. nat_eq (code c) 32 || between 9 13 (code c);
  is_alnum = λ c. between 48 57 (code c) || between 65 90 (code c) || between 97 122 (code c);
  lower = lower_text;
  repr = λ v. "1";
  int_of_text = λ s. none;
  int_of_real = λ r. if r == "inf" then raise overflow_error else ok (pos 1);
  real_is_zero = λ r. r == "0.0";
  real_of_int = λ i. some "100.0";
  real_of_text = λ s. none;
  timestamp_of_iso = λ s. none;
  is_finite = λ r. not (r == "inf");
  round_six = λ r. r;
  outside_window = λ now ts window. not (now == ts);
  json_loads = λ raw. if nat_eq (length raw) 1 then some (obj sample_event) else none;
  json_dumps = λ v. "{}";
  json_dumps_spaced = λ v. "{}";
  json_dumps_indented = λ v. "{}";
  hmac_hex = λ secret raw. "ab12";
  sha256_hex = λ s. "0123456789abcdef0123456789abcdef";
  sub_secrets = λ s. s;
  has_sensitive_word = λ s. false;
  is_unsafe_key = λ s. s == "token";
  iso_of_epoch = λ n. "1970-01-01T00:01:40Z";
  fnmatch = λ s p. s == p;
}
