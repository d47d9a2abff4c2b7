-- ===== src/Requestcontext.antt =====
-- backend/internal/platform/requestcontext/identifiers.go: identifiers among the values of a context.
use mano_reck.Prelude.{Bool, true, false, if◌then◌else◌, Option, none, some, List, [], ◌∷◌, Text}

pub data Key : Type 0 where
  request_id_key correlation_id_key : Key

abbrev pub same_key : Key → Key → Bool
same_key Key.request_id_key Key.request_id_key = true
same_key Key.correlation_id_key Key.correlation_id_key = true
same_key Key.request_id_key Key.correlation_id_key = false
same_key Key.correlation_id_key Key.request_id_key = false

-- The values of a context with these keys, the innermost first.
abbrev pub Context : Type 0
Context = List (Key × Text)

unfoldable pub value : Key → Context → Option Text
value k [] = none
value k ((j, v) ∷ context) = if same_key j k then some v else value k context

unfoldable pub with_identifiers : Context → Text → Text → Context
with_identifiers parent request_id correlation_id =
    (Key.correlation_id_key, correlation_id) ∷ (Key.request_id_key, request_id) ∷ parent

abbrev pub text_or_empty : Option Text → Text
text_or_empty none = []
text_or_empty (some v) = v

unfoldable pub request_id : Context → Text
unfolding value
request_id context = text_or_empty (value Key.request_id_key context)

unfoldable pub correlation_id : Context → Text
unfolding value
correlation_id context = text_or_empty (value Key.correlation_id_key context)
