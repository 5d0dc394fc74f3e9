-- ===== src/Examples/Ids.antt =====
-- Evidence ids at concrete inputs.
use truth_in_stream.Prelude.{codes, pos, arith, ◌≡◌, refl}
use truth_in_stream.EvidenceIds.{
  EvidenceId, new_evidence_id, id_string, parse_evidence_id, parsed, refused, bad_index,
  negative_index,
}
use truth_in_stream.EvidenceIds.RoundTrip.{parse_evidence_id-id_string}

abbrev series : EvidenceId
series = new_evidence_id (codes "insee") (codes "001:686") (pos 12)

series_text : id_string series ≡ codes "insee:001_686:12"
unfolding id_string new_evidence_id
series_text = refl

negative_refused : parse_evidence_id (codes "insee:x:-1") ≡ refused negative_index
unfolding parse_evidence_id
negative_refused = refl

word_refused : parse_evidence_id (codes "insee:x:1b") ≡ refused bad_index
unfolding parse_evidence_id
word_refused = refl

abbrev colon_id : EvidenceId
colon_id = record { kind = codes "press"; source_id = codes "a:b"; index = pos 7 }

parse_evidence_id-id_string_example : parse_evidence_id (id_string colon_id) ≡ parsed colon_id
parse_evidence_id-id_string_example =
    parse_evidence_id-id_string colon_id 7 (refl, (refl, (refl, (refl, (refl, tt))))) refl
      (omega arith)
