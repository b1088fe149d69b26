-- ===== src/Stores/Documents.antt =====
-- public/store/DocumentStore.ts: the cache of documents, by index and id. The search service is a
-- parameter, as is JSON.stringify.
pub mod Cache
use wazuh_dashboard_security.Base.{
  String, List, [], ◌∷◌, ◌++◌, ◌==◌, if◌then◌else◌, Option, none, some, Dict, lookup, insert,
}
use wazuh_dashboard_security.Json.{Json, str, Fields, end, opt, or_else}
use wazuh_dashboard_security.Json.Members.{Members, method_of}
use wazuh_dashboard_security.Json.Text.{to_text}
use wazuh_dashboard_security.Server.Client.{Outcome, return, throw}

abbrev pub DocumentsByIndex : Type 0
DocumentsByIndex = Dict (Dict String)

pub record Source : Type 0 where
  pub get_documents : String → List String → Outcome (List Json)
  pub stringify : Json → String
  pub type_error : Json

-- The store, and the requests that it has made.
pub record Store : Type 0 where
  pub documents_by_index : DocumentsByIndex
  pub requests : List (String × List String)

-- Both methods create the entry of an index where it is missing.
unfoldable pub open_index : String → DocumentsByIndex → DocumentsByIndex
unfolding lookup insert
open_index index m = elim (lookup index m) [ none ↦ insert index [] m | some documents ↦ m ]

abbrev pub open_store : String → Store → Store
open_store index s = record s { documents_by_index = open_index index s.documents_by_index }

-- this.documentsByIndex[index]
unfoldable pub index_of_store : String → DocumentsByIndex → Dict String
unfolding lookup
index_of_store index m = elim (lookup index m) [ none ↦ [] | some documents ↦ documents ]

-- A text that is there and not empty.
unfoldable pub cached : String → String → DocumentsByIndex → Option String
unfolding lookup index_of_store
cached index id m = elim (lookup id (index_of_store index m)) [
  | none ↦ none
  | some text ↦ if text == "" then none else some text
]

unfoldable pub put : String → String → String → DocumentsByIndex → DocumentsByIndex
unfolding insert index_of_store
put index id text m = insert index (insert id text (index_of_store index m)) m

-- documents[0] || ''
abbrev pub first_or_empty : List Json → Json
first_or_empty [] = str ""
first_or_empty (doc ∷ docs) = or_else doc (str "")

-- const documentById: any = {}
abbrev pub document_members : Members
document_members = []

module _ (source : Source) where
  unfoldable pub fetched : String → String → Store → Outcome (List Json) → Outcome String × Store
  unfolding put
  fetched index id s (throw error) = (throw error, s)
  fetched index id s (return docs) =
      let text = source.stringify (first_or_empty docs) in
      (return text, record s { documents_by_index = put index id text s.documents_by_index })

  -- The result is read from the cache after the write.
  unfoldable pub read_or_fetch : String → String → Store → Option String → Outcome String × Store
  unfolding fetched
  read_or_fetch index id opened (some text) = (return text, opened)
  read_or_fetch index id opened none =
      let asked : Store = record opened { requests = opened.requests ++ (index, id ∷ []) ∷ [] } in
      fetched index id asked (source.get_documents index (id ∷ []))

  unfoldable pub get_document : String → String → Store → Outcome String × Store
  unfolding read_or_fetch cached open_index
  get_document index id s =
      let opened = open_store index s in
      read_or_fetch index id opened (cached index id opened.documents_by_index)

  unfoldable pub ids_to_fetch : String → DocumentsByIndex → List String → List String
  unfolding cached
  ids_to_fetch index m [] = []
  ids_to_fetch index m (id ∷ ids) =
      let rest = ids_to_fetch index m ids in
      elim (cached index id m) [ none ↦ id ∷ rest | some text ↦ rest ]

  -- The loop over the fetched documents: each is pushed, and then written to the cache by its id.
  unfoldable pub collect : String → List Json → DocumentsByIndex → Outcome Fields × DocumentsByIndex
  unfolding method_of put opt
  collect index [] m = (return end, m)
  collect index (doc ∷ docs) m = elim (method_of "push" document_members) [
    | none ↦ (throw source.type_error, m)
    | some push ↦ collect index docs (put index (to_text (opt doc "id")) (source.stringify doc) m)
  ]

  -- The push of a cached document is made in an async callback: what it throws rejects a promise
  -- that nobody reads.
  unfoldable pub get_documents : String → List String → Store → Outcome Fields × Store
  unfolding ids_to_fetch collect open_index
  get_documents index ids s =
      let opened = open_store index s in
      let wanted = ids_to_fetch index opened.documents_by_index ids in
      let asked : Store = record opened { requests = s.requests ++ (index, wanted) ∷ [] } in
      elim (source.get_documents index wanted) [
        | throw error ↦ (throw error, asked)
        | return docs ↦
            let (result, m) = collect index docs asked.documents_by_index in
            (result, record asked { documents_by_index = m })
      ]
