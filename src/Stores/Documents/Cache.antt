-- ===== src/Stores/Documents/Cache.antt =====
-- The cache of documents, and the result of getDocuments, of public/store/DocumentStore.ts.
use wazuh_dashboard_security.Base.{
  String, List, [], ◌∷◌, ◌≡◌, ◌≢◌, refl, ap, ◌∙◌, Option, none, some, insert, lookup-insert, lookup,
  arith, ℕ, zero, suc, ◌++◌, sym, append_assoc, append-nil, eq_iff, eq_refl,
}
use wazuh_dashboard_security.Json.{Json, Fields}
use wazuh_dashboard_security.Json.Members.{method_of}
use wazuh_dashboard_security.Server.Client.{Outcome, return, throw}
use wazuh_dashboard_security.Stores.Documents.{
  DocumentsByIndex, Source, Store, index_of_store, open_index, open_store, cached, put, fetched,
  read_or_fetch, get_document, ids_to_fetch, collect, get_documents,
}

cached-put :
    (index id text : String) (m : DocumentsByIndex)
    → text ≢ ""
    → cached index id (put index id text m) ≡ some text
unfolding cached put index_of_store
cached-put index id text m h =
    rw
      (
        lookup-insert index index (insert id text (index_of_store index m)) m,
        cached,
        index_of_store,
      )
      (rw (eq_refl index) (
        rw (lookup-insert id id text (index_of_store index m))
          (rw (eq_refl id) (ground (arith, eq_iff text "")))))

open_index-put :
    (index id text : String) (m : DocumentsByIndex)
    → open_index index (put index id text m) ≡ put index id text m
unfolding open_index put
open_index-put index id text m =
    ground
      (arith, lookup-insert index index (insert id text (index_of_store index m)) m, eq_refl index)

open_index_idem :
    (index : String) (m : DocumentsByIndex)
    → open_index index (open_index index m) ≡ open_index index m
unfolding open_index
open_index_idem index m = ground (arith, lookup-insert index index [] m, eq_refl index)

module _ (source : Source) where
  get_document-cached :
      (index id text : String) (s : Store)
      → open_index index s.documents_by_index ≡ s.documents_by_index
      → cached index id s.documents_by_index ≡ some text
      → get_document source index id s ≡ (return text, s)
  unfolding get_document
  get_document-cached index id text s o e =
      ap
        (λ m.
          read_or_fetch source index id (record s { documents_by_index = m }) (cached index id m))
        o
      ∙ ap (read_or_fetch source index id s) e

module _ (source : Source) (stringifies : (v : Json) → source.stringify v ≢ "") where
  -- A document that was returned once is returned again with no further request, and the store is
  -- left as it is, provided that JSON.stringify never gives an empty text.
  pub get_document-again :
      (index id text : String) (s : Store)
      → (get_document source index id s).0 ≡ return text
      → get_document source index id (get_document source index id s).1
        ≡ (return text, (get_document source index id s).1)
  unfolding get_document read_or_fetch fetched
  get_document-again index id text s e =
      go (cached index id (open_index index s.documents_by_index)) refl e
    where
      after_fetch :
          (asked : Store) (r : Outcome (List Json))
          → (fetched source index id asked r).0 ≡ return text
          → get_document source index id (fetched source index id asked r).1
            ≡ (return text, (fetched source index id asked r).1)
      after_fetch asked (throw error) found = absurd (ground arith)
      after_fetch asked (return docs) found =
          get_document-cached source index id text _
            (open_index-put index id _ asked.documents_by_index)
            (cached-put index id _ asked.documents_by_index (stringifies _)
              ∙ ap some (ground (arith, found)))

      go :
          (c : Option String)
          → cached index id (open_index index s.documents_by_index) ≡ c
          → (read_or_fetch source index id (open_store index s) c).0 ≡ return text
          → get_document source index id (read_or_fetch source index id (open_store index s) c).1
            ≡ (return text, (read_or_fetch source index id (open_store index s) c).1)
      go (some t) hit found =
          get_document-cached source index id text _ (open_index_idem index s.documents_by_index)
            (hit ∙ ap some (ground (arith, found)))
      go none miss found = after_fetch _ _ found

module _ (source : Source) (index : String) where
  collect-document_members :
      (docs : List Json) (m : DocumentsByIndex) → (collect source index docs m).1 ≡ m
  unfolding collect method_of lookup
  collect-document_members [] m = refl
  collect-document_members (doc ∷ docs) m = refl

module _ (source : Source) (index : String) (ids : List String) where
  -- What getDocuments asks for, given what is cached.
  abbrev pub wanted : Store → List String
  wanted s = ids_to_fetch source index (open_index index s.documents_by_index) ids

  -- The store after so many calls of getDocuments, one after the other.
  unfoldable pub after_calls : ℕ → Store → Store
  after_calls zero s = s
  after_calls (suc n) s = after_calls n (get_documents source index ids s).1

  -- The requests of so many calls that ask for the same.
  abbrev pub repeated : ℕ → List String → List (String × List String)
  repeated zero asked = []
  repeated (suc n) asked = (index, asked) ∷ repeated n asked

  get_documents-asked :
      (s : Store)
      → (get_documents source index ids s).1 ≡ record s {
        documents_by_index = open_index index s.documents_by_index;
        requests = s.requests ++ (index, wanted s) ∷ [];
      }
  unfolding get_documents
  get_documents-asked s = go (source.get_documents index (wanted s))
    where
      asked : Store
      asked = record s {
        documents_by_index = open_index index s.documents_by_index;
        requests = s.requests ++ (index, wanted s) ∷ [];
      }

      go :
          (r : Outcome (List Json))
          → (elim r as (λ _. Outcome Fields × Store) [
            | throw error ↦ (throw error, asked)
            | return docs ↦
                let (result, m) = collect source index docs asked.documents_by_index in
                (result, record asked { documents_by_index = m })
          ]).1
            ≡ asked
      go (throw error) = refl
      go (return docs) =
          ap (λ m. record asked { documents_by_index = m })
            (collect-document_members source index docs asked.documents_by_index)

  wanted_again : (s : Store) → wanted (get_documents source index ids s).1 ≡ wanted s
  wanted_again s =
      ap wanted (get_documents-asked s)
      ∙ ap (λ m. ids_to_fetch source index m ids) (open_index_idem index s.documents_by_index)

  -- Whatever the service answers, getDocuments caches no document: each of its calls asks for what
  -- the first one did.
  pub get_documents-refetches :
      (n : ℕ) (s : Store) → (after_calls n s).requests ≡ s.requests ++ repeated n (wanted s)
  unfolding after_calls
  get_documents-refetches zero s = sym (append-nil s.requests)
  get_documents-refetches (suc n) s =
      get_documents-refetches n (get_documents source index ids s).1
      ∙ ap (λ w. ((get_documents source index ids s).1).requests ++ repeated n w) (wanted_again s)
      ∙ ap (λ t. t.requests ++ repeated n (wanted s)) (get_documents-asked s)
      ∙ append_assoc s.requests ((index, wanted s) ∷ []) (repeated n (wanted s))
