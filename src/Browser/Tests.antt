-- ===== src/Browser/Tests.antt =====
-- Runs of the services, with a reader of urls.
use Prim.Native.Char.{Char, code}
use wazuh_dashboard_security.Base.{
  String, true, List, [], ◌∷◌, ◌≡◌, refl, sym, ap, arith, if◌then◌else◌, nat_eq, all, All, some,
  none,
}
use wazuh_dashboard_security.Json.Text.{◌&◌, is_word}
use wazuh_dashboard_security.Browser.Paths.{
  are_plain, is_segment, AreSegments, path_text, IsResolver,
}
use wazuh_dashboard_security.Json.{str, object}
use wazuh_dashboard_security.Server.Client.{return}
use wazuh_dashboard_security.Browser.{Page}
use wazuh_dashboard_security.Browser.Asked.{Given, asked}
use wazuh_dashboard_security.Browser.Answered.{Reaches}
use wazuh_dashboard_security.Browser.Reaches.{asked-Reaches}
use text.Mathlib.TextLemmas.{append_assoc, append-nil, nil-append, cons-append}

abbrev in_head : Char → List String → List String
in_head c [] = []
in_head c (p ∷ ps) = String.◌∷◌ c p ∷ ps

-- What stands between slashes, up to a question mark.
parts : String → List String
parts String.[] = "" ∷ []
parts (String.◌∷◌ c s) =
    let rest = parts s in
    if nat_eq (code c) 63
    then "" ∷ []
    else (if nat_eq (code c) 47 then "" ∷ rest else in_head c rest)

-- What follows the first slash.
resolved : String → List String
unfolding parts
resolved String.[] = []
resolved (String.◌∷◌ c s) = let rest = resolved s in if nat_eq (code c) 47 then parts s else rest

abbrev before_head : String → List String → List String
before_head s [] = []
before_head s (p ∷ ps) = (s & p) ∷ ps

parts-slash : (t : String) → parts ("/" & t) ≡ "" ∷ parts t
unfolding parts
parts-slash t = rw (cons-append "/" "" t, nil-append t) refl

parts-query : (t : String) → parts ("?" & t) ≡ "" ∷ []
unfolding parts
parts-query t = rw (cons-append "?" "" t) refl

resolved-slash : (t : String) → resolved ("/" & t) ≡ parts t
unfolding resolved
resolved-slash t = rw (cons-append "/" "" t, nil-append t) refl

resolved-dots : (t : String) → resolved (".." & ("/" & t)) ≡ parts t
unfolding resolved
resolved-dots t =
    rw (cons-append "." "." ("/" & t), cons-append "." "" ("/" & t), nil-append ("/" & t))
      (resolved-slash t)

before_head-cons :
    (c : Char) (s : String) (ps : List String)
    → in_head c (before_head s ps) ≡ before_head (String.◌∷◌ c s) ps
before_head-cons c s [] = refl
before_head-cons c s (p ∷ ps) = ap (λ t. t ∷ ps) (sym (cons-append c s p))

before_head-nil : (ps : List String) → before_head "" ps ≡ ps
before_head-nil [] = refl
before_head-nil (p ∷ ps) = ap (λ t. t ∷ ps) (nil-append p)

parts-plain : (s t : String) → are_plain s ≡ true → parts (s & t) ≡ before_head s (parts t)
unfolding parts are_plain is_word
parts-plain String.[] t h = rw (nil-append t) (sym (before_head-nil (parts t)))
parts-plain (String.◌∷◌ c s) t h =
    rw (cons-append c s t)
      (ground (arith, h, parts-plain s t (ground (arith, h)), before_head-cons c s (parts t)))

are_plain_of_segment : (s : String) → is_segment s ≡ true → are_plain s ≡ true
unfolding is_segment
are_plain_of_segment s h = ground (arith, h)

parts-path_text :
    (ss : List String) (rest : String)
    → all is_segment ss ≡ true
    → parts rest ≡ "" ∷ []
    → parts (path_text ss & rest) ≡ "" ∷ ss
unfolding path_text
parts-path_text [] rest h e = rw (nil-append rest) e
parts-path_text (s ∷ ss) rest h e =
    let later = parts-path_text ss rest (ground (arith, h)) e in
    let here = parts-plain s (path_text ss & rest) (are_plain_of_segment s (ground (arith, h))) in
    simp (append_assoc, parts-slash, here, later, append-nil)

module _ (s : String) (ss : List String) (rest : String) (good : all is_segment (s ∷ ss) ≡ true)
    (ends : parts rest ≡ "" ∷ []) where
  parts-first : parts (s & (path_text ss & rest)) ≡ s ∷ ss
  parts-first =
      let later = parts-path_text ss rest (ground (arith, good)) ends in
      let here =
        parts-plain s (path_text ss & rest) (are_plain_of_segment s (ground (arith, good))) in
      simp (here, later, append-nil)

  resolved-absolute : resolved (path_text (s ∷ ss) & rest) ≡ s ∷ ss
  unfolding path_text
  resolved-absolute = simp (append_assoc, resolved-slash, parts-first)

  resolved-relative : resolved (".." & path_text (s ∷ ss) & rest) ≡ s ∷ ss
  unfolding path_text
  resolved-relative = simp (append_assoc, resolved-dots, parts-first)

resolves_relative :
    (segments : List String)
    → AreSegments segments
    → resolved (".." & path_text segments) ≡ segments
resolves_relative [] good = absurd good
resolves_relative (s ∷ ss) good =
    rw (← append-nil (".." & path_text (s ∷ ss)))
      (resolved-relative s ss "" good (unfold parts in refl))

resolves_absolute :
    (segments : List String) → AreSegments segments → resolved (path_text segments) ≡ segments
resolves_absolute [] good = absurd good
resolves_absolute (s ∷ ss) good =
    rw (← append-nil (path_text (s ∷ ss))) (resolved-absolute s ss "" good (unfold parts in refl))

resolves_queried :
    (segments : List String) (query : String)
    → AreSegments segments
    → resolved (".." & path_text segments & ("?" & query)) ≡ segments
resolves_queried [] query good = absurd good
resolves_queried (s ∷ ss) query good = resolved-relative s ss ("?" & query) good (parts-query query)

resolved-IsResolver : IsResolver resolved
resolved-IsResolver = record {
  relative = resolves_relative;
  absolute = resolves_absolute;
  queried = resolves_queried;
}

abbrev page : Page
page = record {
  stringify = λ v. "json";
  lossless_stringify = λ v. "json";
  lossless_parse = λ v. return v;
  to_lower_case = λ s. s;
  type_error = object (("message", str "TypeError") ∷ []);
  data_source_id = str "";
}

abbrev given : Given
given = record {
  id = "3f1-a_9.b";
  text = "a";
  other = "b";
  v = object [];
  w = object [];
  texts = "x" ∷ [];
  choice = some "draft";
  second = none;
  number = none;
  flag = true;
  mappings = [];
  counter = [];
}

given-IsSegment : is_segment given.id ≡ true
unfolding is_segment are_plain is_word
given-IsSegment = refl

asked-Reaches_example : All (All (Reaches resolved)) (asked page given)
asked-Reaches_example = asked-Reaches resolved resolved-IsResolver page given given-IsSegment
