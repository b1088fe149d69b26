-- ===== src/Stores/Rules/Refines.antt =====
-- The rules store of public/store/RulesStore.ts against the server that it stands before.
use wazuh_dashboard_security.Base.{
  Bool, true, false, List, [], ◌∷◌, ◌++◌, ◌==◌, ◌≡◌, refl, sym, ap, ◌∙◌, subst, if◌then◌else◌,
  Option, none, some, lookup, insert, lookup-insert, arith, eq_iff, Bool-cases, append-nil,
  append_assoc, inl, inr, All,
}
use wazuh_dashboard_security.Json.{Fields}
use wazuh_dashboard_security.Server.Client.{Outcome, return, throw}
use wazuh_dashboard_security.Stores.Rules.{
  Response, ok, not_ok, Terms, Write, RuleService, Notice, Store, Library, request_body,
  is_reported, terms_sent, terms_after, get_rules, get_all_rules, name_of, received, notify,
  read_or_request, invalidate_cache, then_do, written,
}
use wazuh_dashboard_security.Stores.Rules.Uncached.{
  Operation, Result, answer, ask, ask_all, perform, perform_all, serve, serve_all, and_then,
  outcome_of, tagged,
}

module _ (library : Library) (Asked : Bool → Option Terms → Type 0) where
  -- The texts that JSON.stringify makes of the arguments of different calls differ.
  abbrev pub AreSeparate : Type 0
  AreSeparate =
      (p q : Bool) (t u : Option Terms)
      → Asked p t
      → Asked q u
      → library.key p t ≡ library.key q u
      → (p ≡ q) × (t ≡ u)

  -- The calls of getRules that an operation makes.
  abbrev pub MayAsk : Operation → Type 0
  MayAsk (Operation.read p t) = Asked p t
  MayAsk (Operation.read_all t) = Asked false t × Asked true (terms_after library t)
  MayAsk (Operation.change w) = Unit

  module _ {World : Type 0} (service : RuleService World) where
    -- What the cache holds is what the server would answer now.
    abbrev IsCoherent : Store World → Type 0
    IsCoherent s =
        (p : Bool) (t : Option Terms) (hits : List Fields)
        → Asked p t
        → lookup (library.key p t) s.cache ≡ some hits
        → ask library service s.world p t ≡ (return hits, [])

    -- A read of the store does what a request does.
    record Agrees {A : Type 0} (s : Store World) (did : Outcome A × Store World)
        (asked : Outcome A × List Notice) : Type 0 where
      result : did.0 ≡ asked.0
      notices : did.1.notices ≡ s.notices ++ asked.1
      world : did.1.world ≡ s.world
      coherent : IsCoherent did.1

    IsCoherent-invalidate_cache : (s : Store World) → IsCoherent (invalidate_cache s)
    unfolding lookup
    IsCoherent-invalidate_cache s p t hits asked held = absurd (ground (arith, held))

    IsCoherent-insert :
        AreSeparate
        → (p : Bool) (t : Option Terms) (s : Store World) (found : List Fields) → Asked p t
        → IsCoherent s
        → ask library service s.world p t ≡ (return found, [])
        → IsCoherent (record s { cache = insert (library.key p t) found s.cache })
    IsCoherent-insert separate p t s found asked coherent answered q u hits also held =
        elim (Bool-cases (library.key p t == library.key q u)) [
          | inl same ↦
              let call = separate p q t u asked also ((eq_iff _ _).0 same) in
              subst (λ h. ask library service s.world q u ≡ (return h, []))
                (ground (arith, in_cache, same))
                (subst (λ x. ask library service s.world x u ≡ (return found, [])) call.0
                  (subst (λ x. ask library service s.world p x ≡ (return found, [])) call.1
                    answered))
          | inr other ↦ coherent q u hits also (ground (arith, in_cache, other))
        ]
      where
        in_cache :
            (if library.key p t == library.key q u
              then some found
              else lookup (library.key q u) s.cache)
            ≡ some hits
        in_cache = sym (lookup-insert (library.key p t) (library.key q u) found s.cache) ∙ held

    received-Agrees :
        AreSeparate
        → (p : Bool) (t : Option Terms) (s : Store World) (r : Outcome (Response (List Fields)))
        → Asked p t
        → IsCoherent s
        → service.get_rules s.world p (request_body (terms_sent library t)) ≡ r
        → Agrees s (received library service p t s r) (answer p r)
    unfolding received ask answer
    received-Agrees separate p t s (throw error) asked coherent answered = record {
      result = refl;
      notices = sym (append-nil _);
      world = refl;
      coherent = coherent;
    }
    received-Agrees separate p t s (return (not_ok error)) asked coherent answered =
        by_test (is_reported error)
      where
        by_test :
            (b : Bool)
            → Agrees {A = List Fields} s
                (return [], if b then notify "retrieve" "rules" error s else s)
                (
                  return [],
                  if b
                      then record { action = "retrieve"; object_name = "rules"; error = error } ∷ []
                      else [],
                )
        by_test true = record { result = refl; notices = refl; world = refl; coherent = coherent }
        by_test false = record {
          result = refl;
          notices = sym (append-nil _);
          world = refl;
          coherent = coherent;
        }
    received-Agrees separate p t s (return (ok hits)) asked coherent answered = record {
      result = refl;
      notices = sym (append-nil _);
      world = refl;
      coherent = IsCoherent-insert separate p t s _ asked coherent (ap (answer p) answered);
    }

    read_or_request-Agrees :
        AreSeparate
        → (p : Bool) (t : Option Terms) (s : Store World) (o : Option (List Fields)) → Asked p t
        → IsCoherent s
        → lookup (library.key p t) s.cache ≡ o
        → Agrees s (read_or_request library service p t s o) (ask library service s.world p t)
    unfolding read_or_request ask
    read_or_request-Agrees separate p t s none asked coherent held =
        received-Agrees separate p t s _ asked coherent refl
    read_or_request-Agrees separate p t s (some hits) asked coherent held =
        let now = coherent p t hits asked held in
        record {
          result = ap (λ r. r.0) (sym now);
          notices = sym (ap (λ r. s.notices ++ r.1) now ∙ append-nil _);
          world = refl;
          coherent = coherent;
        }

    get_rules-Agrees :
        AreSeparate
        → (p : Bool) (t : Option Terms) (s : Store World) → Asked p t
        → IsCoherent s
        → Agrees s (get_rules library service p t s) (ask library service s.world p t)
    unfolding get_rules ask
    get_rules-Agrees separate p t s asked coherent =
        read_or_request-Agrees separate p t s _ asked coherent refl

    then_do-Agrees :
        {A B : Type 0} (s : Store World) (did : Outcome A × Store World)
        (asked : Outcome A × List Notice) (f : A → Store World → Outcome B × Store World)
        (g : A → Outcome B × List Notice)
        → Agrees s did asked
        → ((a : A) (later : Store World)
            → later.world ≡ s.world
            → IsCoherent later
            → Agrees later (f a later) (g a))
        → Agrees s (then_do did f) (and_then asked g)
    then_do-Agrees s (return a, later) (return b, notices) f g first next =
        let second = next a later first.world first.coherent in
        let same : a ≡ b = ground (arith, first.result) in
        subst (λ x. Agrees s (f a later) ((g x).0, notices ++ (g x).1)) same
          (record {
            result = second.result;
            notices =
                second.notices
                ∙ ap (λ l. l ++ (g a).1) first.notices
                ∙ append_assoc s.notices notices (g a).1;
            world = second.world ∙ first.world;
            coherent = second.coherent;
          })
    then_do-Agrees s (throw error, later) (throw thrown, notices) f g first next = record {
      result = ap throw (ground (arith, first.result));
      notices = first.notices;
      world = first.world;
      coherent = first.coherent;
    }
    then_do-Agrees s (return a, later) (throw thrown, notices) f g first next =
        absurd (ground (arith, first.result))
    then_do-Agrees s (throw error, later) (return b, notices) f g first next =
        absurd (ground (arith, first.result))

    get_all_rules-Agrees :
        AreSeparate
        → (t : Option Terms) (s : Store World) → Asked false t
        → Asked true (terms_after library t)
        → Agrees s (get_all_rules library service t s) (ask_all library service s.world t)
    unfolding get_all_rules ask_all
    get_all_rules-Agrees separate t s first second =
        let custom_read =
          get_rules-Agrees separate false t (invalidate_cache s) first
            (IsCoherent-invalidate_cache s) in
        let whole = then_do-Agrees (invalidate_cache s) _ _ _ _ custom_read (λ custom later w c.
          then_do-Agrees later _ _ _ _
            (subst
              (λ x.
                Agrees later (get_rules library service true (terms_after library t) later)
                  (ask library service x true (terms_after library t)))
              w (get_rules-Agrees separate true (terms_after library t) later second c))
            (λ pre_packaged last v d. record {
              result = refl;
              notices = sym (append-nil _);
              world = refl;
              coherent = d;
            })) in
        record {
          result = whole.result;
          notices = whole.notices;
          world = whole.world;
          coherent = whole.coherent;
        }

    -- An operation of the store, against what the server does.
    record Serves (s : Store World) (did : Result × Store World)
        (served : Result × (List Notice × World)) : Type 0 where
      result : did.0 ≡ served.0
      notices : did.1.notices ≡ s.notices ++ served.1.0
      world : did.1.world ≡ served.1.1
      coherent : IsCoherent did.1

    read-Serves :
        {s : Store World} {did : Outcome (List Fields) × Store World}
        {asked : Outcome (List Fields) × List Notice}
        → Agrees s did asked
        → Serves s
            (tagged library service Result.rules did)
            (Result.rules asked.0, (asked.1, s.world))
    read-Serves agrees = record {
      result = ap Result.rules agrees.result;
      notices = agrees.notices;
      world = agrees.world;
      coherent = agrees.coherent;
    }

    written-Serves :
        (w : Write) (s : Store World) (world : World) (r : Outcome (Response Unit))
        → Serves s
            (tagged library service Result.changed (
              written library service
                (name_of library service w)
                (record (invalidate_cache s) { world = world })
                r))
            (
              Result.changed (outcome_of library service (name_of library service w) r).0,
              ((outcome_of library service (name_of library service w) r).1, world),
            )
    written-Serves w s world (throw error) = record {
      result = refl;
      notices = sym (append-nil _);
      world = refl;
      coherent = IsCoherent-invalidate_cache (record s { world = world });
    }
    written-Serves w s world (return (ok done)) = record {
      result = refl;
      notices = sym (append-nil _);
      world = refl;
      coherent = IsCoherent-invalidate_cache (record s { world = world });
    }
    written-Serves w s world (return (not_ok error)) = record {
      result = refl;
      notices = refl;
      world = refl;
      coherent = IsCoherent-invalidate_cache (record s { world = world });
    }

    perform-Serves :
        AreSeparate
        → (op : Operation) (s : Store World) → MayAsk op
        → IsCoherent s
        → Serves s (perform library service op s) (serve library service op s.world)
    unfolding perform serve
    perform-Serves separate (Operation.read p t) s may coherent =
        read-Serves (get_rules-Agrees separate p t s may coherent)
    perform-Serves separate (Operation.read_all t) s may coherent =
        read-Serves (get_all_rules-Agrees separate t s may.0 may.1)
    perform-Serves separate (Operation.change w) s may coherent =
        written-Serves w s (service.write s.world w).1 (service.write s.world w).0

    perform_all-serve_all_from :
        AreSeparate
        → (ops : List Operation) (s : Store World) → All MayAsk ops
        → IsCoherent s
        → ((perform_all library service ops s).0 ≡ (serve_all library service ops s.world).0)
          × ((perform_all library service ops s).1.notices
              ≡ s.notices ++ (serve_all library service ops s.world).1.0)
          × ((perform_all library service ops s).1.world
              ≡ (serve_all library service ops s.world).1.1)
    unfolding perform_all serve_all
    perform_all-serve_all_from separate [] s may coherent = (refl, sym (append-nil _), refl)
    perform_all-serve_all_from separate (op ∷ ops) s may coherent =
        let first = perform-Serves separate op s may.0 coherent in
        let later = (perform library service op s).1 in
        let rest = perform_all-serve_all_from separate ops later may.1 first.coherent in
        let served = serve_all library service ops in
        let moved = ap served first.world in
        (
          ap (λ r. r ∷ (perform_all library service ops later).0) first.result
              ∙ ap (λ rs. (serve library service op s.world).0 ∷ rs) (rest.0 ∙ ap (λ x. x.0) moved),
          rest.1
              ∙ ap (λ l. l ++ (served later.world).1.0) first.notices
              ∙ append_assoc s.notices (serve library service op s.world).1.0
                  (served later.world).1.0
              ∙ ap (λ x. s.notices ++ ((serve library service op s.world).1.0 ++ x.1.0)) moved,
          rest.2 ∙ ap (λ x. x.1.1) moved,
        )

    -- From a store with an empty cache, whatever operations are made: their results, the notices
    -- that they add, and what the server holds in the end, are those of a store that makes a
    -- request at each read, provided that JSON.stringify gives different texts for the arguments of
    -- different calls.
    pub perform_all-serve_all :
        AreSeparate
        → (ops : List Operation) (s : Store World) → All MayAsk ops
        → s.cache ≡ []
        → ((perform_all library service ops s).0 ≡ (serve_all library service ops s.world).0)
          × ((perform_all library service ops s).1.notices
              ≡ s.notices ++ (serve_all library service ops s.world).1.0)
          × ((perform_all library service ops s).1.world
              ≡ (serve_all library service ops s.world).1.1)
    perform_all-serve_all separate ops s may cleared =
        perform_all-serve_all_from separate ops s may (λ p t hits asked held.
          IsCoherent-invalidate_cache s p t hits asked
            (subst (λ m. lookup (library.key p t) m ≡ some hits) cleared held))
