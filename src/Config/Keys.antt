-- ===== src/Config/Keys.antt =====
-- The node's key, the admin proof, and what Init and Update store.
use p2pos.Base64.RoundTrip.{trim_space-encode_ne-nil, decode-encode}
use p2pos.Text.{codes, same, to_lower, is_blank, trim_right, trim_left, trim_space}
use p2pos.Config.{
  Saving, normal_channel, Store, copy_config, ConfigError, init_from, normalize,
  generate_and_persist, stored, File, stored_key, load_or_create_private_key, Config,
}
use p2pos.Env.{KeyLaws, Env}
use p2pos.Common.{
  Bool-cases, Result, Result-cases, refl, Option-cases, [], ◌∙◌, ◌≢◌, sym, ap, inr, inl, false, ◌⊎◌,
  ◌≡◌, Option, List, ℕ, arith, ok, some, none,
}
use p2pos.Base64

encode-ne-nil : (bytes : List ℕ) → bytes ≢ [] → is_blank (Base64.encode bytes) ≡ false
unfolding trim_space trim_left trim_right
encode-ne-nil bytes h = ground (arith, trim_space-encode_ne-nil bytes h)

module _ (env : Env) (disk : Saving) (generated : Option env.PrivKey) where
  stored_key-encode :
      (laws : KeyLaws env) (key : env.PrivKey) (bytes : List ℕ) (c : Config)
      → env.marshal_private key ≡ some bytes
      → stored_key env disk generated (record c { node_private_key = Base64.encode bytes })
        ≡ some key
  unfolding stored_key
  stored_key-encode laws key bytes c h = ground (
    arith,
    decode-encode bytes (laws.marshal-IsBytes key bytes h),
    encode-ne-nil bytes (laws.marshal-ne-nil key bytes h),
    laws.unmarshal-marshal key bytes h,
  )

  ok-inj :
      (x y : env.PrivKey × Config) (r : Result ConfigError (env.PrivKey × Config))
      → r ≡ ok x
      → r ≡ ok y
      → x ≡ y
  ok-inj x y r h k = cc

  generate_and_persist_parts :
      (c next : Config) (f : File) (key : env.PrivKey)
      → (generate_and_persist env disk generated c f).1 ≡ ok (key, next)
      → (bytes : List ℕ) × (env.marshal_private key ≡ some bytes)
        × (next ≡ record c { node_private_key = Base64.encode bytes })
        × ((generate_and_persist env disk generated c f).0 ≡ stored next)
  unfolding generate_and_persist
  generate_and_persist_parts c next f key h = elim (Option-cases generated) [
    | inl g ↦ absurd (cc (rw (generate_and_persist, g) at h))
    | inr (k, g) ↦ elim (Option-cases (env.marshal_private k)) [
      | inl m ↦ absurd (cc (rw (generate_and_persist, g, m) at h))
      | inr (bytes, m) ↦
          elim (Bool-cases (disk.saves (record c { node_private_key = Base64.encode bytes }))) [
            | inr w ↦ absurd (cc (rw (generate_and_persist, g, m, w) at h))
            | inl w ↦
                let made = record c { node_private_key = Base64.encode bytes } in
                let ran : generate_and_persist env disk generated c f
                    ≡ (stored made, ok (k, made)) =
                  simp (generate_and_persist, g, m, w) in
                let e =
                  ok-inj (k, made) (key, next) (generate_and_persist env disk generated c f).1
                    (ap (λ x. x.1) ran) h in
                (
                  bytes,
                  ap (λ x. env.marshal_private x.0) (sym e) ∙ m,
                  ap (λ x. x.1) (sym e),
                  ap (λ x. x.0) ran ∙ ap (λ x. stored x.1) e,
                )
          ]
    ]
  ]

  generate_and_persist-stored_key :
      (laws : KeyLaws env) (c next : Config) (f : File) (key : env.PrivKey)
      → (generate_and_persist env disk generated c f).1 ≡ ok (key, next)
      → (stored_key env disk generated next ≡ some key)
        × ((generate_and_persist env disk generated c f).0 ≡ stored next)
  generate_and_persist-stored_key laws c next f key h =
      let (bytes, made, e, written) = generate_and_persist_parts c next f key h in
      (ap (stored_key env disk generated) e ∙ stored_key-encode laws key bytes c made, written)

  -- The key that loadOrCreatePrivateKey returns is always the one that the configuration beside it
  -- holds; a configuration with a good key is returned as it is and the file is left alone, and
  -- otherwise the file holds the new configuration.
  pub load_or_create_private_key-stored_key :
      (laws : KeyLaws env) (c next : Config) (f : File) (key : env.PrivKey)
      → (load_or_create_private_key env disk generated c f).1 ≡ ok (key, next)
      → (stored_key env disk generated next ≡ some key)
        × (((next ≡ c) × ((load_or_create_private_key env disk generated c f).0 ≡ f))
            ⊎ ((stored_key env disk generated c ≡ none)
                × ((load_or_create_private_key env disk generated c f).0 ≡ stored next)))
  unfolding load_or_create_private_key
  load_or_create_private_key-stored_key laws c next f key h =
      elim (Option-cases (stored_key env disk generated c)) [
        | inl none_held ↦
            let ran : load_or_create_private_key env disk generated c f
                ≡ generate_and_persist env disk generated c f =
              simp (load_or_create_private_key, none_held) in
            let (held, written) =
              generate_and_persist-stored_key laws c next f key (ap (λ x. x.1) (sym ran) ∙ h) in
            (held, inr (none_held, ap (λ x. x.0) ran ∙ written))
        | inr (k, held) ↦
            let ran : load_or_create_private_key env disk generated c f ≡ (f, ok (k, c)) =
              simp (load_or_create_private_key, held) in
            let e =
              ok-inj (k, c) (key, next) (load_or_create_private_key env disk generated c f).1
                (ap (λ x. x.1) ran) h in
            (
              ap (λ x. stored_key env disk generated x.1) (sym e) ∙ held ∙ ap (λ x. some x.0) e,
              inl (ap (λ x. x.1) (sym e), ap (λ x. x.0) ran),
            )
      ]

  -- After a start that succeeds the store holds a key, and its configuration holds the same key.
  pub init_from-stored_key :
      (laws : KeyLaws env) (loaded : Config) (f : File) (s : Store env)
      → (init_from env disk generated loaded f s).1 ≡ ok tt
      → (key : env.PrivKey) × ((init_from env disk generated loaded f s).0.1.node_key ≡ some key)
        × (stored_key env disk generated (init_from env disk generated loaded f s).0.1.config
            ≡ some key)
  unfolding init_from
  init_from-stored_key laws loaded f s h =
      elim (Result-cases (load_or_create_private_key env disk generated (normalize loaded) f).1) [
        | inl ((key, next), e) ↦ (
          key,
          rw (init_from, e) refl,
          rw (init_from, e)
              (load_or_create_private_key-stored_key laws (normalize loaded) next f key e).0,
        )
        | inr (e, failed) ↦ absurd (cc (rw (init_from, failed) at h))
      ]

-- Get drops the update channel: whatever channel a store in normal form follows, Update of what Get
-- returns puts it on "stable", and changes nothing else.
pub normalize-copy_config :
    (c : Config)
    → normalize (copy_config c) ≡ record (normalize c) { update_channel = codes "stable" }
unfolding normalize copy_config normal_channel to_lower trim_space trim_left trim_right same
normalize-copy_config c = refl
