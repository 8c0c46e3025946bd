-- ===== src/Tests/StatusPage.antt =====
-- The theorems on the status page, and on the versions of the protocol.
use tzafon_way_point.Prelude.{
  ◌≤◌, ◌<◌, ◌≡◌, ◌↔◌, refl, Bool, none, some, List, [], ◌∷◌, ◌++◌, Text, codes, length, keep, map,
  arith,
}
use tzafon_way_point.Prelude.Status.{ok}
use tzafon_way_point.Dict.{empty}
use tzafon_way_point.Gateway.Http.{encode}
use tzafon_way_point.Manager.StatusPage.{
  Browser, Registration, byte_length, prefix_bytes, truncated_string, registration_row, render,
  max_items,
}
use tzafon_way_point.Manager.StatusPage.Rows.{IsSorted, render-Registrations}
use tzafon_way_point.Manager.StatusPage.Truncation.{truncated_string-IsAscii}
use tzafon_way_point.Client.Version.{add_version, check_version, check_version-add_version}
use tzafon_way_point.Tests.Worlds.{b_id, p_id}

abbrev browsers : List Browser
browsers =
    record { browser_id = some b_id; registered_at_ms = 1000; connected = none; dead_at_ms = none }
    ∷ record {
      browser_id = some p_id;
      registered_at_ms = 5000;
      connected = some (some b_id, 6000);
      dead_at_ms = none;
    }
    ∷ []

render-Registrations_example :
    (others : List Registration) × IsSorted
      (λ r. r.time_since_registered_ms)
      ((render browsers 9000).registrations ++ others)
    × ((p : Registration → Bool)
        → length (keep p ((render browsers 9000).registrations ++ others))
          ≡ length (keep p (map (registration_row 9000) browsers)))
    × (length (render browsers 9000).registrations ≤ max_items)
    × (length (render browsers 9000).registrations < max_items → others ≡ [])
render-Registrations_example = render-Registrations browsers 9000

abbrev long_id : Text
long_id = codes "ephemeral-browser-proxy-0123456789"

truncated_string-IsAscii_example :
    (t : Text) × (truncated_string long_id ≡ some t) × (byte_length t ≤ 32)
truncated_string-IsAscii_example = truncated_string-IsAscii long_id (ground arith)

-- An id whose 29th byte lies inside a character.
inside_character :
    truncated_string (codes "0123456789012345678901234567" ++ 233 ∷ codes "0123") ≡ none
unfolding truncated_string byte_length prefix_bytes encode
inside_character = refl

check_version-add_version_example :
    (check_version (codes "1") (add_version (codes "2") empty) ≡ ok (add_version (codes "2") empty))
    ↔ (codes "1" ≡ codes "2")
check_version-add_version_example = check_version-add_version (codes "1") (codes "2") empty
