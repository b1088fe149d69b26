-- ===== src/ThreatIntel/Sources/Reading.antt =====
-- What the reading of a file of indicators tells the form.
use wazuh_dashboard_security.Base.{
  String, false, not, List, [], ◌∷◌, ◌++◌, append_assoc, append-nil, none, some, ◌==◌, keep, ltb,
  ◌≡◌,
}
use wazuh_dashboard_security.Json.{Json, null, arr, obj}
use wazuh_dashboard_security.Server.Client.{Outcome, return}
use wazuh_dashboard_security.ThreatIntel.Sources.{
  File, ReadResponse, read, ioc_upload_max_file_size, invalid_format, split_lines, parsed,
  read_lines, read_iocs_from_file,
}

abbrev pub filled_lines : String → List String
filled_lines text = keep (λ line. not (line == "")) (split_lines text)

-- What a parsed line adds to the indicators: itself if it is an object, an array or null.
unfoldable pub taken : Outcome Json → List Json
taken (return (obj fs)) = obj fs ∷ []
taken (return (arr vs)) = arr vs ∷ []
taken (return null) = null ∷ []
taken _ = []

-- What it adds to the complaints: one if it is a text, a number or a Boolean, or no JSON.
unfoldable pub complained : Outcome Json → List ReadResponse
complained (return (obj fs)) = []
complained (return (arr vs)) = []
complained (return null) = []
complained _ = invalid_format ∷ []

read_one :
    (parse : String → Outcome Json) (line : String) (lines : List String) (iocs : List Json)
    (calls : List ReadResponse)
    → read_lines parse (line ∷ lines) iocs calls
      ≡ read_lines parse lines (iocs ++ taken (parse line)) (calls ++ complained (parse line))
unfolding read_lines parsed taken complained
read_one parse line lines iocs calls = by_kind (parse line)
  where
    by_kind :
        (o : Outcome Json)
        → (elim (parsed parse o) as (λ _. List Json × List ReadResponse) [
          | some v ↦ read_lines parse lines (iocs ++ v ∷ []) calls
          | none ↦ read_lines parse lines iocs (calls ++ invalid_format ∷ [])
        ])
          ≡ read_lines parse lines (iocs ++ taken o) (calls ++ complained o)
    by_kind (return (obj fs)) = simp append-nil
    by_kind (return (arr vs)) = simp append-nil
    by_kind (return null) = simp append-nil
    by_kind _ = simp append-nil

module _ (parse : String → Outcome Json) where
  unfoldable pub indicators_of : List String → List Json
  unfolding taken
  indicators_of [] = []
  indicators_of (line ∷ lines) = taken (parse line) ++ indicators_of lines

  unfoldable pub complaints_of : List String → List ReadResponse
  unfolding complained
  complaints_of [] = []
  complaints_of (line ∷ lines) = complained (parse line) ++ complaints_of lines

  read_lines-splits :
      (lines : List String) (iocs : List Json) (calls : List ReadResponse)
      → read_lines parse lines iocs calls
        ≡ (iocs ++ indicators_of lines, calls ++ complaints_of lines)
  unfolding indicators_of complaints_of
  read_lines-splits [] iocs calls = unfold read_lines in simp append-nil
  read_lines-splits (line ∷ lines) iocs calls = rw (read_one parse line lines iocs calls) (
      rw (read_lines-splits lines (iocs ++ taken (parse line)) (calls ++ complained (parse line)))
        (simp append_assoc))

  -- A file that is not too large, and can be read, is always answered with success, last of all,
  -- with the objects, arrays and nulls that its lines hold, in their order; before that each other
  -- line that is not empty (a text, a number, a Boolean, or no JSON) is complained of, once.
  pub read_iocs_from_file-splits :
      (file : File) (text : String)
      → ltb ioc_upload_max_file_size file.size ≡ false
      → file.text ≡ some text
      → read_iocs_from_file parse file
        ≡ complaints_of (filled_lines text)
          ++ read file.name (indicators_of (filled_lines text)) ∷ []
  unfolding read_iocs_from_file
  read_iocs_from_file-splits file text small found =
      simp (small, found, read_lines-splits (filled_lines text) [] [])
