-- ===== src/Request/Auth.antt =====
-- beer/beer_auth.c: the request that logs in. SHA-1 and base64 are code of third_party, and are
-- parameters: a digest of a string, and the bytes of a base64 string.
use bee_c.Base.{
  ℕ, zero, suc, ◌+◌, ◌*◌, ◌/◌, ◌%◌, refl, Bool, Bool-cases, inl, inr, true, false, ◌&&◌, Option,
  none, some,
}
use bee_c.Base.{
  List, [], ◌∷◌, ◌++◌, append-nil, append_assoc, length, take, drop, ◌==◌, if◌then◌else◌,
}
use bee_c.Msgpuck.{Msgpuck}
use bee_c.Request.Key
use bee_c.Request.Common.{Wire, auth}
use bee_c.Request.Direct.{send_parts}
use bee_c.Request.Packet.{Sends, send_parts-Sends}

-- `^` of two numbers of k bits.
abbrev pub xor_bits : ℕ → ℕ → ℕ → ℕ
xor_bits zero a b = 0
xor_bits (suc k) a b = (a + b) % 2 + 2 * xor_bits k (a / 2) (b / 2)

unfoldable pub beer_xor : List ℕ → List ℕ → List ℕ
beer_xor [] bs = []
beer_xor (a ∷ as') [] = []
beer_xor (a ∷ as') (b ∷ bs) = xor_bits 8 a b ∷ beer_xor as' bs

abbrev pub same_bytes : List ℕ → List ℕ → Bool
same_bytes [] [] = true
same_bytes [] (b ∷ bs) = false
same_bytes (a ∷ as') [] = false
same_bytes (a ∷ as') (b ∷ bs) = a == b && same_bytes as' bs

-- "guest" and "chap-sha1"
abbrev pub guest_name : List ℕ
guest_name = 103 ∷ 117 ∷ 101 ∷ 115 ∷ 116 ∷ []

abbrev pub chap_sha1 : List ℕ
chap_sha1 = 99 ∷ 104 ∷ 97 ∷ 112 ∷ 45 ∷ 115 ∷ 104 ∷ 97 ∷ 49 ∷ []

abbrev pub scramble_size : ℕ
scramble_size = 20

module _ (sha1 : List ℕ → List ℕ) where
  unfoldable pub scramble_prepare : List ℕ → List ℕ → List ℕ
  unfolding beer_xor
  scramble_prepare salt pass =
      let hash1 = sha1 pass in beer_xor hash1 (sha1 (take scramble_size salt ++ sha1 hash1))

  module _ (base64_decode : List ℕ → List ℕ) (mp : Msgpuck) {S : Type 0} (w : Wire S) where
    -- The name that is sent, and whether it is the guest's; `none` is NULL.
    abbrev pub is_guest : Option (List ℕ) → Bool
    is_guest none = true
    is_guest (some user) = same_bytes user guest_name

    abbrev pub name_of : Option (List ℕ) → List ℕ
    name_of none = guest_name
    name_of (some user) = if same_bytes user guest_name then guest_name else user

    unfoldable pub auth_raw : S → Option (List ℕ) → List ℕ → List ℕ → Option ℕ × S
    unfolding scramble_prepare
    auth_raw s user pass base64_salt =
        let name = name_of user in
        let head = mp.encode_map 2 ++ mp.encode_uint Key.username ++ mp.encode_strl (length name) in
        let scramble = scramble_prepare (base64_decode (take 44 base64_salt)) pass in
        if is_guest user
        then send_parts mp w auth s
            (head ∷ name ∷ (mp.encode_uint Key.tuple ++ mp.encode_array 0) ∷ [])
        else send_parts mp w auth s (
            head
            ∷ name
            ∷ (mp.encode_uint Key.tuple
                ++ mp.encode_array 2
                ++ (mp.encode_strl 9 ++ chap_sha1)
                ++ mp.encode_strl scramble_size)
            ∷ scramble
            ∷ [])

    -- `beer_auth`, by the greeting of the connection, whose salt stands behind 64 bytes.
    unfoldable pub beer_auth : S → List ℕ → Option (List ℕ) → List ℕ → Option ℕ × S
    unfolding auth_raw
    beer_auth s greeting user pass = auth_raw s user pass (drop 64 greeting)

    unfoldable pub beer_deauth : S → List ℕ → Option ℕ × S
    unfolding beer_auth
    beer_deauth s greeting = beer_auth s greeting none []

    -- The tuple of the request: empty for the guest, else the name of the method and the scramble.
    abbrev pub credentials : Bool → List ℕ → List ℕ → List ℕ
    credentials true pass salt = mp.encode_array 0
    credentials false pass salt =
        mp.encode_array 2
        ++ ((mp.encode_strl 9 ++ chap_sha1)
            ++ (mp.encode_strl scramble_size
                ++ scramble_prepare (base64_decode (take 44 salt)) pass))

    -- Logging in makes one vector write of the packet with the name and the tuple of credentials,
    -- whatever the digest and the decoder are: for no name, or for the name of the guest, it is
    -- the guest's name and the empty array, and for another name the array of the method and of
    -- the scramble of the password by the salt.
    pub auth_raw-Sends :
        (s : S) (user : Option (List ℕ)) (pass salt : List ℕ)
        → Sends mp w auth
            ((Key.username, mp.encode_strl (length (name_of user)) ++ name_of user)
              ∷ (Key.tuple, credentials (is_guest user) pass salt)
              ∷ [])
            s
            (auth_raw s user pass salt)
    unfolding auth_raw
    auth_raw-Sends s user pass salt =
        let head =
          mp.encode_map 2
          ++ mp.encode_uint Key.username
          ++ mp.encode_strl (length (name_of user)) in
        elim (Bool-cases (is_guest user)) [
          | inl y ↦ rw y (
              send_parts-Sends mp w auth
                ((Key.username, mp.encode_strl (length (name_of user)) ++ name_of user)
                  ∷ (Key.tuple, credentials true pass salt)
                  ∷ [])
                s (head ∷ name_of user ∷ (mp.encode_uint Key.tuple ++ mp.encode_array 0) ∷ [])
                (simp (append_assoc, append-nil) refl))
          | inr n ↦ rw n (
              send_parts-Sends mp w auth
                ((Key.username, mp.encode_strl (length (name_of user)) ++ name_of user)
                  ∷ (Key.tuple, credentials false pass salt)
                  ∷ [])
                s
                (head
                  ∷ name_of user
                  ∷ (mp.encode_uint Key.tuple
                      ++ mp.encode_array 2
                      ++ (mp.encode_strl 9 ++ chap_sha1)
                      ++ mp.encode_strl scramble_size)
                  ∷ scramble_prepare (base64_decode (take 44 salt)) pass
                  ∷ [])
                (simp (append_assoc, append-nil) refl))
        ]
