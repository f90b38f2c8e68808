-- ===== src/Http/Message/Operations.antt =====
-- Any sequence of setHeader and removeHeader, against a function from keys to values.
use pixiecpp.Base.{
  ◌≡◌, refl, ◌∙◌, ap, Option, none, some, List, [], ◌∷◌, if◌then◌else◌, Bytes, bytes_eq,
}
use pixiecpp.Http.Message.{
  UnsetFields, HttpMessage, new_http_message, set_header, get_header, remove_header, has_header,
  is_some,
}
use pixiecpp.Http.Message.Headers.{get_header-set_header, get_header-remove_header}

pub data HeaderOperation : Type 0 where
  sets : Bytes → Bytes → HeaderOperation
  removes : Bytes → HeaderOperation

unfoldable pub apply : HeaderOperation → HttpMessage → HttpMessage
apply (sets key value) m = set_header key value m
apply (removes key) m = remove_header key m

unfoldable pub apply_all : List HeaderOperation → HttpMessage → HttpMessage
unfolding apply
apply_all [] m = m
apply_all (o ∷ os) m = apply_all os (apply o m)

-- A map as the function of its lookups: an operation changes it at one key.
abbrev pub Lookup : Type 0
Lookup = Bytes → Option Bytes

abbrev pub change : HeaderOperation → Lookup → Lookup
change (sets key value) f other = if bytes_eq other key then some value else f other
change (removes key) f other = if bytes_eq other key then none else f other

abbrev pub change_all : List HeaderOperation → Lookup → Lookup
change_all [] f = f
change_all (o ∷ os) f = change_all os (change o f)

change-same :
    (o : HeaderOperation) (f g : Lookup)
    → ((key : Bytes) → f key ≡ g key)
    → (key : Bytes) → change o f key ≡ change o g key
change-same (sets k v) f g h key = ap (λ x. if bytes_eq key k then some v else x) (h key)
change-same (removes k) f g h key = ap (λ x. if bytes_eq key k then none else x) (h key)

change_all-same :
    (os : List HeaderOperation) (f g : Lookup)
    → ((key : Bytes) → f key ≡ g key)
    → (key : Bytes) → change_all os f key ≡ change_all os g key
change_all-same [] f g h key = h key
change_all-same (o ∷ os) f g h key =
    change_all-same os (change o f) (change o g) (change-same o f g h) key

get_header-apply :
    (o : HeaderOperation) (m : HttpMessage) (key : Bytes)
    → get_header key (apply o m) ≡ change o (λ k. get_header k m) key
unfolding apply
get_header-apply (sets k v) m key = get_header-set_header k key v m
get_header-apply (removes k) m key = get_header-remove_header k key m

get_header-from :
    (os : List HeaderOperation) (m : HttpMessage) (key : Bytes)
    → get_header key (apply_all os m) ≡ change_all os (λ k. get_header k m) key
unfolding apply_all
get_header-from [] m key = refl
get_header-from (o ∷ os) m key =
    get_header-from os (apply o m) key
    ∙ change_all-same os (λ k. get_header k (apply o m)) (change o (λ k. get_header k m))
        (get_header-apply o m) key

-- After any sequence of setHeader and removeHeader on a new message, getHeader and hasHeader answer for
-- every key as the function does that starts with no value and that each operation changes at its
-- own key: the value that was set last, unless the key was removed since.
pub get_header-apply_all :
    (os : List HeaderOperation) (unset : UnsetFields) (key : Bytes)
    → (get_header key (apply_all os (new_http_message unset)) ≡ change_all os (λ _. none) key)
      × (has_header key (apply_all os (new_http_message unset))
          ≡ is_some (change_all os (λ _. none) key))
unfolding get_header has_header new_http_message
get_header-apply_all os unset key =
    let e = get_header-from os (new_http_message unset) key in (e, ap is_some e)
