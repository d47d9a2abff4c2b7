-- ===== src/Checks/Events.antt =====
-- Identifiers, patterns and envelopes at concrete inputs.
use mano_reck.Prelude.{◌≡◌, ◌↔◌, true, none, [], ◌∷◌, ◌%◌, ◌^◌, take, Text, codes, pos, arith}
use mano_reck.GoError.{ok}
use mano_reck.Identifier.{Reader, new_uuidv7, is_uuidv7, uint64}
use mano_reck.Identifier.RoundTrip.{decode, timestamp_of, random_part}
use mano_reck.Identifier.Fresh.{new_uuidv7-IsCanonical}
use mano_reck.Regex.{match_string}
use mano_reck.Regex.Language.{Matches}
use mano_reck.Regex.Decides.{match_string_iff}
use mano_reck.Event.{event_type_pattern, validate, subject_text}
use mano_reck.Event.Validate.{IsWellFormed, validate_iff}
use mano_reck.Event.Subject.{subject-injective}
use mano_reck.Outbox.Schema.{subject_pattern}
use mano_reck.Outbox.Inserting.{subject-Matches}
use mano_reck.Checks.Fixtures.{envelope, failure}
use mano_reck.Checks.Runs.{envelope-subject, envelope-IsWellFormed}

abbrev sixteen : Text
sixteen = 7 ∷ 7 ∷ 7 ∷ 7 ∷ 7 ∷ 7 ∷ 7 ∷ 7 ∷ 7 ∷ 7 ∷ 7 ∷ 7 ∷ 7 ∷ 7 ∷ 7 ∷ 255 ∷ []

abbrev reader : Reader
reader = record { bytes = sixteen; failure = failure }

new_uuidv7-IsCanonical_example :
    (id : Text) × (new_uuidv7 (pos 1_700_000_000_000) reader ≡ ok id)
    × (is_uuidv7 id ≡ true)
    × (timestamp_of (decode id) ≡ uint64 (pos 1_700_000_000_000) % 2 ^ 48)
    × (random_part (decode id) ≡ random_part (take 16 sixteen))
new_uuidv7-IsCanonical_example =
    new_uuidv7-IsCanonical (pos 1_700_000_000_000) reader (omega arith) (
      omega arith,
      (
        omega arith,
        (
          omega arith,
          (
            omega arith,
            (
              omega arith,
              (
                omega arith,
                (
                  omega arith,
                  (
                    omega arith,
                    (
                      omega arith,
                      (
                        omega arith,
                        (
                          omega arith,
                          (
                            omega arith,
                            (omega arith, (omega arith, (omega arith, (omega arith, tt)))),
                          ),
                        ),
                      ),
                    ),
                  ),
                ),
              ),
            ),
          ),
        ),
      ),
    )

match_string_iff_example :
    (match_string event_type_pattern (codes "platform.probe") ≡ true)
    ↔ Matches event_type_pattern (codes "platform.probe")
match_string_iff_example = match_string_iff event_type_pattern (codes "platform.probe")

validate_iff_example : (validate envelope ≡ none) ↔ IsWellFormed envelope
validate_iff_example = validate_iff envelope

subject-injective_example : (envelope.type ≡ codes "platform.probe") × (envelope.version ≡ pos 1)
subject-injective_example =
    subject-injective envelope envelope (codes "manoreck.events.platform.probe.v1") envelope-subject
      envelope-subject

subject-Matches_example : Matches subject_pattern (subject_text (codes "platform.probe") (pos 12))
subject-Matches_example =
    subject-Matches (codes "platform.probe") 12 envelope-IsWellFormed.type (omega arith)
