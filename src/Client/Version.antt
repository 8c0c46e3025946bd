-- ===== src/Client/Version.antt =====
-- apps/rust-shared/src/lib.rs: the interceptors that compare the versions of the protocol. The metadata
-- of a request is a map from names to values; the version is the build's.
use tzafon_way_point.Prelude.{
  ◌≡◌, ◌↔◌, refl, ◌∙◌, none, some, Text, text_eq, text_eq_iff, codes, arith, if◌then◌else◌,
}
use tzafon_way_point.Prelude.Status.{Result, ok, err, failed_precondition}
use tzafon_way_point.Dict.{Dict, get, insert, get-insert_self}

abbrev pub proto_version : Text
proto_version = codes "proto_version"

unfoldable pub add_version : Text → Dict Text → Dict Text
add_version version metadata = insert proto_version version metadata

unfoldable pub check_version : Text → Dict Text → Result (Dict Text)
check_version version metadata = elim (get proto_version metadata) [
  | none ↦ err (failed_precondition "No version supplied")
  | some t ↦
      if text_eq version t then ok metadata else err (failed_precondition "Wrong protocol versions")
]

checked :
    (server client : Text) (metadata : Dict Text)
    → check_version server (add_version client metadata) ≡ (
        if text_eq server client
        then ok (add_version client metadata)
        else err (failed_precondition "Wrong protocol versions"))
unfolding check_version add_version
checked server client metadata =
    rw (get-insert_self proto_version client metadata, check_version) refl

-- A server lets the request of a client pass exactly when both were built with the same version,
-- whatever metadata the request had before.
pub check_version-add_version :
    (server client : Text) (metadata : Dict Text)
    → (check_version server (add_version client metadata) ≡ ok (add_version client metadata))
      ↔ (server ≡ client)
check_version-add_version server client metadata = (
  (λ h. ground (arith, text_eq_iff server client, checked server client metadata, h)),
  (λ e. checked server client metadata ∙ rw ((text_eq_iff server client).1 e) refl),
)
