-- ===== src/Rpc/Settings.antt =====
-- How the generated clients and servers are configured: their constructors, and any sequence of the
-- builder's calls.
pub mod Builders
pub mod Servers
pub mod Setters
pub mod Clients
use minerva_server.Rpc.Tonic
use minerva_server.Prelude.{◌≡◌, refl, sym, ◌∙◌, Option, some, none, List, [], ◌∷◌, ℕ}

-- The calls of a builder.
pub data Setting (Encoding : Type 0) : Type 0 where
  accept_compressed send_compressed : Encoding → Setting Encoding
  max_decoding_message_size max_encoding_message_size : ℕ → Setting Encoding

-- The calls in their order.
abbrev pub build : {S X : Type 0} → (S → X → S) → S → List X → S
build apply s [] = s
build apply s (x ∷ xs) = build apply (apply s x) xs

-- What a sequence of calls asks for: the encodings of each direction in their order, and the last
-- limit of each kind.
abbrev pub accepted : {Encoding : Type 0} → List (Setting Encoding) → List Encoding
accepted [] = []
accepted (accept_compressed e ∷ xs) = e ∷ accepted xs
accepted (_ ∷ xs) = accepted xs

abbrev pub sent : {Encoding : Type 0} → List (Setting Encoding) → List Encoding
sent [] = []
sent (send_compressed e ∷ xs) = e ∷ sent xs
sent (_ ∷ xs) = sent xs

-- The second where there is one.
abbrev later : {A : Type 0} → Option A → Option A → Option A
later first none = first
later first (some a) = some a

later_assoc : {A : Type 0} (a b c : Option A) → later (later a b) c ≡ later a (later b c)
later_assoc a b (some c) = refl
later_assoc a b none = refl

later-none : {A : Type 0} (o : Option A) → later none o ≡ o
later-none none = refl
later-none (some a) = refl

abbrev pub decoding : {Encoding : Type 0} → List (Setting Encoding) → Option ℕ
decoding [] = none
decoding (max_decoding_message_size n ∷ xs) = later (some n) (decoding xs)
decoding (_ ∷ xs) = decoding xs

abbrev pub encoding : {Encoding : Type 0} → List (Setting Encoding) → Option ℕ
encoding [] = none
encoding (max_encoding_message_size n ∷ xs) = later (some n) (encoding xs)
encoding (_ ∷ xs) = encoding xs

module _ {Stream : Type 0 → Type 0} {Http Reply : Type 0}
    (tonic : Tonic.Server Stream Http Reply) where
  -- What every generated server holds.
  pub record Fields (T : Type 0) : Type 0 where
    pub inner : T
    pub accepts : tonic.Encodings
    pub sends : tonic.Encodings
    pub max_decoding : Option ℕ
    pub max_encoding : Option ℕ

  abbrev pub set : {T : Type 0} → Fields T → Setting tonic.Encoding → Fields T
  set s (accept_compressed e) = record s { accepts = tonic.enable s.accepts e }
  set s (send_compressed e) = record s { sends = tonic.enable s.sends e }
  set s (max_decoding_message_size n) = record s { max_decoding = some n }
  set s (max_encoding_message_size n) = record s { max_encoding = some n }

  -- A generated server: its builder, and its fields, which the builder sets.
  pub record Builder (T S : Type 0) : Type 0 where
    pub new : T → S
    pub apply : S → Setting tonic.Encoding → S
    pub fields : S → Fields T
    pub fields-new :
        (inner : T)
        → fields (new inner) ≡ (record {
          inner = inner;
          accepts = tonic.none_enabled;
          sends = tonic.none_enabled;
          max_decoding = none;
          max_encoding = none;
        })
    pub fields-apply : (s : S) (x : Setting tonic.Encoding) → fields (apply s x) ≡ set (fields s) x

  -- The `grpc` that a server answers with.
  abbrev pub grpc_of : {T : Type 0} → Fields T → tonic.Grpc
  grpc_of s =
      tonic.apply_max_message_size_config
        (tonic.apply_compression_config tonic.new s.accepts s.sends) s.max_decoding s.max_encoding

  -- The `grpc` that a sequence of calls asks for.
  abbrev pub asked : List (Setting tonic.Encoding) → tonic.Grpc
  asked xs =
      tonic.apply_max_message_size_config
        (tonic.apply_compression_config tonic.new
          (build tonic.enable tonic.none_enabled (accepted xs))
          (build tonic.enable tonic.none_enabled (sent xs)))
        (decoding xs) (encoding xs)

  -- The fields after any calls of the builder.
  fields-build :
      {T S : Type 0} (b : Builder T S) (s : S) (xs : List (Setting tonic.Encoding))
      → b.fields (build b.apply s xs) ≡ build set (b.fields s) xs
  fields-build b s [] = refl
  fields-build b s (x ∷ xs) = fields-build b (b.apply s x) xs ∙ rw (b.fields-apply s x) refl

  build-set :
      {T : Type 0} (s : Fields T) (xs : List (Setting tonic.Encoding))
      → build set s xs ≡ (record {
        inner = s.inner;
        accepts = build tonic.enable s.accepts (accepted xs);
        sends = build tonic.enable s.sends (sent xs);
        max_decoding = later s.max_decoding (decoding xs);
        max_encoding = later s.max_encoding (encoding xs);
      })
  build-set s [] = refl
  build-set s (accept_compressed e ∷ xs) = build-set (set s (accept_compressed e)) xs
  build-set s (send_compressed e ∷ xs) = build-set (set s (send_compressed e)) xs
  build-set s (max_decoding_message_size n ∷ xs) =
      build-set (set s (max_decoding_message_size n)) xs
      ∙ rw (sym (later_assoc s.max_decoding (some n) (decoding xs))) refl
  build-set s (max_encoding_message_size n ∷ xs) =
      build-set (set s (max_encoding_message_size n)) xs
      ∙ rw (sym (later_assoc s.max_encoding (some n) (encoding xs))) refl

  -- A server that is new and then configured.
  pub configured :
      {T S : Type 0} (b : Builder T S) (inner : T) (xs : List (Setting tonic.Encoding))
      → b.fields (build b.apply (b.new inner) xs) ≡ (record {
        inner = inner;
        accepts = build tonic.enable tonic.none_enabled (accepted xs);
        sends = build tonic.enable tonic.none_enabled (sent xs);
        max_decoding = decoding xs;
        max_encoding = encoding xs;
      })
  configured b inner xs =
      rw
        (
          fields-build b (b.new inner) xs,
          b.fields-new inner,
          build-set,
          later-none (decoding xs),
          later-none (encoding xs),
        )
        refl
