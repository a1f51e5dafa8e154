-- ===== src/Host.antt =====
-- The host id: reader_util/host_id.go. The answers of the operating system are arguments.
use Prim.Native.Char.{Char, code}
use Prim.Native.String
use Prim.Native.String.append
use log_reader.Prelude.{
  split_by, String, Bool, false, ◌&&◌, ◌||◌, List, [], ◌∷◌, Option, none, some, ◌≡◌, refl, ap,
  and-false, ◌==◌, str_eq, if◌then◌else◌, map,
}

-- A record of what `os.Hostname` and `os.Readlink("/proc/self/ns/net")` answer; `none` is an error.
pub record HostAnswers : Type 0 where
  pub hostname : Option String
  pub link : Option String

abbrev pub is_bracket : Char → Bool
is_bracket c = code c == 91 || code c == 93

unfoldable pub trim_left : String → String
trim_left String.[] = ""
trim_left (String.◌∷◌ c s) =
    let t : String = trim_left s in if is_bracket c then t else String.◌∷◌ c s

unfoldable pub trim_right : String → String
trim_right String.[] = ""
trim_right (String.◌∷◌ c s) =
    let t : String = trim_right s in if str_eq t "" && is_bracket c then "" else String.◌∷◌ c t

-- strings.Trim(s, "[]")
abbrev pub trim_brackets : String → String
trim_brackets s = trim_right (trim_left s)

abbrev pub of_parts : List String → Option String
of_parts (name ∷ inode ∷ []) = if str_eq name "net" then some (trim_brackets inode) else none
of_parts _ = none

-- `getNetworkNamespace`
unfoldable pub get_network_namespace : Option String → Option String
unfolding split_by trim_left trim_right
get_network_namespace none = none
get_network_namespace (some link) = of_parts (split_by 58 link)

abbrev pub or_default : Option String → String
or_default none = "default"
or_default (some s) = s

-- `getHostIdImpl`
unfoldable pub get_host_id_impl : HostAnswers → String
unfolding get_network_namespace
get_host_id_impl a =
    String.◌++◌ (or_default a.hostname)
      (String.◌++◌ "_" (or_default (get_network_namespace a.link)))

-- `GetHostId`, with the package's variable, which is set by the first call: its result, and the
-- variable after.
unfoldable pub get_host_id : HostAnswers → Option String → String × Option String
unfolding get_host_id_impl
get_host_id a none = (get_host_id_impl a, some (get_host_id_impl a))
get_host_id a (some s) = (s, some s)

-- The results of a sequence of calls.
unfoldable pub host_ids : List HostAnswers → Option String → List String
unfolding get_host_id
host_ids [] s = []
host_ids (a ∷ as') s = (get_host_id a s).0 ∷ host_ids as' (get_host_id a s).1

-- No character of the text is one of ":[]".
abbrev pub IsPlain : String → Type 0
IsPlain String.[] = Unit
IsPlain (String.◌∷◌ c s) = (code c == 58 ≡ false) × (is_bracket c ≡ false) × IsPlain s

split-IsPlain : (s : String) → IsPlain s → split_by 58 s ≡ s ∷ []
unfolding split_by
split-IsPlain String.[] h = refl
split-IsPlain (String.◌∷◌ c s) (colon, bracket, h) = rw (colon, split-IsPlain s h) refl

split_closed : (s : String) → IsPlain s → split_by 58 (String.◌++◌ s "]") ≡ (String.◌++◌ s "]") ∷ []
unfolding split_by
split_closed String.[] h = refl
split_closed (String.◌∷◌ c s) (colon, bracket, h) =
    rw (append.cons c s "]", colon, split_closed s h) refl

trim_right_closed : (s : String) → IsPlain s → trim_right (String.◌++◌ s "]") ≡ s
unfolding trim_right
trim_right_closed String.[] h = refl
trim_right_closed (String.◌∷◌ c s) (colon, bracket, h) =
    rw (append.cons c s "]", trim_right_closed s h, bracket, and-false (str_eq s "")) refl

trim_brackets_closed :
    (s : String) → IsPlain s → trim_brackets (String.◌++◌ "[" (String.◌++◌ s "]")) ≡ s
unfolding trim_left trim_right
trim_brackets_closed String.[] h = refl
trim_brackets_closed (String.◌∷◌ c s) (colon, bracket, h) =
    rw
      (
        append.cons c s "]",
        append.cons "[" "" (String.◌∷◌ c (String.◌++◌ s "]")),
        append.nil (String.◌∷◌ c (String.◌++◌ s "]")),
        bracket,
        trim_right_closed s h,
        bracket,
        and-false (str_eq s ""),
      )
      refl

abbrev in_net : List String → List String
in_net ws = "net" ∷ ws

split_link : (t : String) → split_by 58 (String.◌++◌ "net:" t) ≡ in_net (split_by 58 t)
unfolding split_by
split_link t =
    rw
      (
        append.cons "n" "et:" t,
        append.cons "e" "t:" t,
        append.cons "t" ":" t,
        append.cons ":" "" t,
        append.nil t,
      )
      refl

-- The link that Linux gives for a network namespace.
abbrev pub net_link : String → String
net_link inode = String.◌++◌ "net:" (String.◌++◌ "[" (String.◌++◌ inode "]"))

split_opened :
    (s : String)
    → IsPlain s
    → split_by 58 (String.◌++◌ "[" (String.◌++◌ s "]")) ≡ (String.◌++◌ "[" (String.◌++◌ s "]")) ∷ []
unfolding split_by
split_opened s h =
    rw (append.cons "[" "" (String.◌++◌ s "]"), append.nil (String.◌++◌ s "]"), split_closed s h)
      refl

namespace_of_link :
    (inode : String) → IsPlain inode → get_network_namespace (some (net_link inode)) ≡ some inode
unfolding get_network_namespace
namespace_of_link inode h =
    rw
      (
        split_link (String.◌++◌ "[" (String.◌++◌ inode "]")),
        split_opened inode h,
        trim_brackets_closed inode h,
      )
      refl

later_ids : (s : String) (calls : List HostAnswers) → host_ids calls (some s) ≡ map (λ c. s) calls
unfolding host_ids get_host_id
later_ids s [] = refl
later_ids s (c ∷ calls) = ap (◌∷◌ s) (later_ids s calls)

-- If at the first call of `GetHostId` the host name can be read, and the link of the network namespace
-- is an inode in the form that Linux writes, with none of the characters of ":[]" in the inode:
-- this call and all later ones, whatever the operating system then answers, return the host name
-- and that inode, joined by an underscore.
pub host_ids-net_link :
    (host inode : String) (later : List HostAnswers)
    → IsPlain inode
    → let first : HostAnswers = record { hostname = some host; link = some (net_link inode) } in
      host_ids (first ∷ later) none
      ≡ map (λ c. String.◌++◌ host (String.◌++◌ "_" inode)) (first ∷ later)
unfolding host_ids get_host_id get_host_id_impl
host_ids-net_link host inode later h = rw (namespace_of_link inode h) (
    ap (◌∷◌ (String.◌++◌ host (String.◌++◌ "_" inode)))
      (later_ids (String.◌++◌ host (String.◌++◌ "_" inode)) later))
