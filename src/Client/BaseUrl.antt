-- ===== src/Client/BaseUrl.antt =====
-- The address that a client is built with.
use yral_onboarding_hello_wo.Prelude.{
  ◌≡◌, refl, ap, inl, inr, [], ◌∷◌, ◌++◌, true, false, Bool-cases, if◌then◌else◌, Text, codes, ok,
}
use yral_onboarding_hello_wo.Client.{
  Web, HelloWorldClient, ends_with_slash, keep_last, trim_end_slashes, with_slash, new_client,
}

-- A text that does not end in a slash is not trimmed.
trim_end_slashes-id : (s : Text) → ends_with_slash s ≡ false → trim_end_slashes s ≡ s
unfolding trim_end_slashes ends_with_slash
trim_end_slashes-id [] h = refl
trim_end_slashes-id (c ∷ []) h = rw h
trim_end_slashes-id (c ∷ d ∷ s) h = ap (keep_last c) (trim_end_slashes-id (d ∷ s) h)

ends_with_slash-append : (s : Text) → ends_with_slash (s ++ codes "/") ≡ true
unfolding ends_with_slash
ends_with_slash-append [] = refl
ends_with_slash-append (c ∷ []) = refl
ends_with_slash-append (c ∷ d ∷ s) = ends_with_slash-append (d ∷ s)

-- The path of an address with the slash that `join` needs at its end.
abbrev pub slashed : Text → Text
slashed path = if ends_with_slash path then path else path ++ codes "/"

module _ {W Url ParseError Response ReqwestError : Type 0}
    (web : Web W Url ParseError Response ReqwestError) where
  -- `set_path` sets the path of an address that has one; `url` percent-encodes what it is given, and
  -- the path of an address is encoded already, so one more slash is all that changes.
  abbrev pub SetsPath : Url → Type 0
  SetsPath url = web.path (web.set_path (web.path url ++ codes "/") url) ≡ web.path url ++ codes "/"

  -- A client is built from every address that parses, if its path can be set to itself with one more
  -- slash. The path of the client's address ends in a slash, and is the path that was parsed with a
  -- slash behind it if it had none.
  pub new_client-path :
      (text : Text) (url : Url)
      → web.parse text ≡ ok url
      → SetsPath url
      → (client : HelloWorldClient Url) × (new_client web text ≡ ok client)
        × (web.path client.base_url ≡ slashed (web.path url))
        × (ends_with_slash (web.path client.base_url) ≡ true)
  unfolding new_client with_slash
  new_client-path text url parsed sets = elim (Bool-cases (ends_with_slash (web.path url))) [
    | inl has ↦
        (record { base_url = url }, rw (parsed, new_client) (rw (has, with_slash)), rw has, has)
    | inr lacks ↦
        let trimmed = trim_end_slashes-id (web.path url) lacks in
        (
          record { base_url = web.set_path (web.path url ++ codes "/") url },
          rw (parsed, new_client) (rw (lacks, trimmed, with_slash)),
          rw lacks sets,
          rw sets (ends_with_slash-append (web.path url)),
        )
  ]

  -- An address with the path `/` is taken as it is.
  pub new_client-root :
      (text : Text) (url : Url)
      → web.parse text ≡ ok url
      → web.path url ≡ codes "/"
      → new_client web text ≡ ok (record { base_url = url })
  unfolding new_client with_slash ends_with_slash
  new_client-root text url parsed root = rw (parsed, new_client) (rw (root, with_slash) refl)
