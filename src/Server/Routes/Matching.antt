-- ===== src/Server/Routes/Matching.antt =====
-- Which routes of server/routes fit a request.
use wazuh_dashboard_security.Base.{
  String, Bool, true, false, not, List, [], ◌∷◌, ◌≡◌, ◌≤◌, refl, ◌==◌, ◌&&◌, ◌||◌, arith, eq_iff,
  length, any, keep, Bool-cases, inl, inr, subst,
}
use wazuh_dashboard_security.Server.Routes.{
  Method, get, post, put, delete, Segment, literal, parameter, Route,
}
use wazuh_dashboard_security.Server.Routes.Table.{routes}

-- A parameter stands for a segment that is not empty.
unfoldable pub matches : List String → List Segment → Bool
matches [] [] = true
matches (s ∷ ss) (literal t ∷ path) = s == t && matches ss path
matches (s ∷ ss) (parameter name ∷ path) = not (s == "") && matches ss path
matches [] (p ∷ path) = false
matches (s ∷ ss) [] = false

abbrev pub same_method : Method → Method → Bool
same_method get get = true
same_method post post = true
same_method put put = true
same_method delete delete = true
same_method _ _ = false

unfoldable pub answers : Method → List String → Route → Bool
unfolding matches
answers method segments route = same_method method route.method && matches segments route.path

unfoldable pub fitting : Method → List String → List Route → List Route
unfolding answers
fitting method segments rs = keep (answers method segments) rs

-- Some path fits both.
overlap : List Segment → List Segment → Bool
overlap [] [] = true
overlap (literal s ∷ p) (literal t ∷ q) = s == t && overlap p q
overlap (parameter m ∷ p) (t ∷ q) = overlap p q
overlap (s ∷ p) (parameter n ∷ q) = overlap p q
overlap [] (t ∷ q) = false
overlap (s ∷ p) [] = false

conflict : Route → Route → Bool
unfolding overlap
conflict r q = same_method r.method q.method && overlap r.path q.path

conflicts : List Route → Bool
unfolding conflict
conflicts [] = false
conflicts (r ∷ rs) = any (conflict r) rs || conflicts rs

matches-overlap :
    (segments : List String) (p q : List Segment)
    → matches segments p ≡ true
    → matches segments q ≡ true
    → overlap p q ≡ true
unfolding matches overlap
matches-overlap [] [] [] h k = refl
matches-overlap [] [] (literal t ∷ q) h k = absurd (ground (arith, k))
matches-overlap [] [] (parameter n ∷ q) h k = absurd (ground (arith, k))
matches-overlap [] (literal t ∷ p) q h k = absurd (ground (arith, h))
matches-overlap [] (parameter n ∷ p) q h k = absurd (ground (arith, h))
matches-overlap (s ∷ ss) [] q h k = absurd (ground (arith, h))
matches-overlap (s ∷ ss) (literal t ∷ p) [] h k = absurd (ground (arith, k))
matches-overlap (s ∷ ss) (parameter m ∷ p) [] h k = absurd (ground (arith, k))
matches-overlap (s ∷ ss) (literal t ∷ p) (literal u ∷ q) h k =
    let rest = matches-overlap ss p q (ground (arith, h)) (ground (arith, k)) in
    ground (arith, h, k, rest, eq_iff s t, eq_iff s u, eq_iff t u)
matches-overlap (s ∷ ss) (literal t ∷ p) (parameter n ∷ q) h k =
    matches-overlap ss p q (ground (arith, h)) (ground (arith, k))
matches-overlap (s ∷ ss) (parameter m ∷ p) (literal u ∷ q) h k =
    matches-overlap ss p q (ground (arith, h)) (ground (arith, k))
matches-overlap (s ∷ ss) (parameter m ∷ p) (parameter n ∷ q) h k =
    matches-overlap ss p q (ground (arith, h)) (ground (arith, k))

same_method→eq : (m n : Method) → same_method m n ≡ true → m ≡ n
same_method→eq get get h = refl
same_method→eq post post h = refl
same_method→eq put put h = refl
same_method→eq delete delete h = refl
same_method→eq _ _ h = cc

same_method_trans :
    (m a b : Method) → same_method m a ≡ true → same_method m b ≡ true → same_method a b ≡ true
same_method_trans m a b h k = subst (λ x. same_method x b ≡ true) (same_method→eq m a h) k

answers-conflict :
    (method : Method) (segments : List String) (r q : Route)
    → answers method segments r ≡ true
    → answers method segments q ≡ true
    → conflict r q ≡ true
unfolding answers conflict
answers-conflict method segments r q h k =
    let methods =
      same_method_trans method r.method q.method (ground (arith, h)) (ground (arith, k)) in
    let paths = matches-overlap segments r.path q.path (ground (arith, h)) (ground (arith, k)) in
    rw (methods, paths) refl

fitting-none :
    (method : Method) (segments : List String) (r : Route) (rs : List Route)
    → answers method segments r ≡ true
    → any (conflict r) rs ≡ false
    → fitting method segments rs ≡ []
unfolding fitting
fitting-none method segments r [] h apart = refl
fitting-none method segments r (q ∷ rs) h apart = elim (Bool-cases (answers method segments q)) [
  | inl also ↦ absurd (ground (arith, apart, answers-conflict method segments r q h also))
  | inr not_this ↦ rw not_this (fitting-none method segments r rs h (ground (arith, apart)))
]

fitting-length :
    (method : Method) (segments : List String) (rs : List Route)
    → conflicts rs ≡ false
    → length (fitting method segments rs) ≤ 1
unfolding fitting conflicts
fitting-length method segments [] apart = omega arith
fitting-length method segments (r ∷ rs) apart = elim (Bool-cases (answers method segments r)) [
  | inl this ↦
      let none_else = fitting-none method segments r rs this (ground (arith, apart)) in
      rw (this, none_else) (omega arith)
  | inr other ↦ rw other (fitting-length method segments rs (ground (arith, apart)))
]

routes_apart : conflicts routes ≡ false
unfolding conflicts routes
routes_apart = refl

-- Of all routes that the plugin registers, at most one fits a request, whatever its method and its
-- path: which handler answers does not depend on the order or on a precedence of routes.
pub routes-fit_once :
    (method : Method) (segments : List String) → length (fitting method segments routes) ≤ 1
routes-fit_once method segments = fitting-length method segments routes routes_apart
