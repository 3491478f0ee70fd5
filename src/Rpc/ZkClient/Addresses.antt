-- ===== src/Rpc/ZkClient/Addresses.antt =====
-- rpc/zk_client.cc: what is registered is found.
use file_server.Prelude.{
  ◌≤◌, ◌<◌, ◌≡◌, ◌≢◌, refl, sym, ap, subst, ◌∙◌, true, false, Option, none, some, List, [], ◌∷◌,
  ◌++◌, length, take_all, arith, if-false, not, ◌||◌,
}
use file_server.Prelude.Text.{Bytes}
use file_server.Json.{utf8}
use file_server.Rpc.ZkClient.{
  ZkLib, ZkLaws, ZkCode, zok, node_exists, other_code, ZkClient, child_path, ensure_path,
  created_path, register, with_address, addresses, addresses_of, discover,
}

ready :
    (client : ZkClient)
    → client.connected ≡ true
    → client.handle ≡ true
    → (not client.connected || not client.handle) ≡ false
ready client c h = ground arith

module _ (zk : ZkLib) where
  open zk use {Nodes}

  with_address-append :
      (value : Option (Option Bytes)) (found more : List Bytes)
      → with_address zk value (found ++ more) ≡ with_address zk value found ++ more
  unfolding with_address
  with_address-append none found more = refl
  with_address-append (some none) found more = refl
  with_address-append (some (some v)) found more = ground arith

  pub addresses-append :
      (path : Bytes) (before after : List Bytes) (s : Nodes)
      → addresses zk path (before ++ after) s
        ≡ addresses zk path before s ++ addresses zk path after s
  unfolding addresses
  addresses-append path [] after s = refl
  addresses-append path (c ∷ cs) after s =
      ap (with_address zk (zk.get (child_path path c) s)) (addresses-append path cs after s)
      ∙ with_address-append (zk.get (child_path path c) s) (addresses zk path cs s)
          (addresses zk path after s)

  short_address :
      (addr : Bytes) (found : List Bytes)
      → 0 < length addr
      → length addr ≤ 256
      → with_address zk (some (some addr)) found ≡ addr ∷ found
  unfolding with_address
  short_address addr found some_byte fits = ground (arith, take_all 256 addr fits)

  -- Only a created node has a path that is not empty.
  created_node :
      (r : ZkCode × Bytes × Nodes)
      → (created_path zk r).0 ≢ []
      → (q : Bytes) × (s' : Nodes) × (r ≡ (zok, q, s')) × ((created_path zk r).1 ≡ s')
  unfolding created_path
  created_node (zok, q, s') made = (q, s', refl, refl)
  created_node (node_exists, q, s') made = absurd (made refl)
  created_node (other_code, q, s') made = absurd (made refl)

  discover_among :
      (path addr child : Bytes) (before after : List Bytes) (client : ZkClient) (s : Nodes)
      → client.connected ≡ true
      → client.handle ≡ true
      → 0 < length addr
      → length addr ≤ 256
      → zk.get_children path s ≡ some (before ++ child ∷ after)
      → zk.get (child_path path child) s ≡ some (some addr)
      → discover zk path client s ≡ addresses zk path before s ++ (addr ∷ addresses zk path after s)
  unfolding discover addresses_of addresses
  discover_among path addr child before after client s connected handle some_byte fits there got =
      if-false [] (ready client connected handle)
      ∙ ap (λ c. addresses_of zk path c s) there
      ∙ addresses-append path before (child ∷ after) s
      ∙ ap (◌++◌ (addresses zk path before s)) (
          ap (λ v. with_address zk v (addresses zk path after s)) got
          ∙ short_address addr (addresses zk path after s) some_byte fits)

  -- A client that is connected registers an address of 1 to 256 bytes. Where the answer is not empty,
  -- Discover of another connected client finds the address then, and beside it only the values of the
  -- children that the path had before.
  pub discover-register :
      (laws : ZkLaws zk) (path addr : Bytes) (client finder : ZkClient) (s : Nodes)
      → client.connected ≡ true
      → client.handle ≡ true
      → finder.connected ≡ true
      → finder.handle ≡ true
      → 0 < length addr
      → length addr ≤ 256
      → (register zk path addr client s).0 ≢ []
      → let s' = (register zk path addr client s).1 in
        (before : List Bytes) × (after : List Bytes) × (zk.get_children path (ensure_path zk path s)
          ≡ some (before ++ after))
        × (discover zk path finder s'
            ≡ addresses zk path before s' ++ (addr ∷ addresses zk path after s'))
  unfolding register
  discover-register laws path addr client finder s connected handle connected' handle' some_byte
        fits made =
      let made_by = zk.create (path ++ utf8 "/node_") (some addr) true (ensure_path zk path s) in
      let reg : register zk path addr client s ≡ created_path zk made_by =
        if-false ([], s) (ready client connected handle) in
      let (q, s', e, left) = created_node made_by (λ n. made (ap (λ r. r.0) reg ∙ n)) in
      let at_s' : s' ≡ (register zk path addr client s).1 = sym (ap (λ r. r.1) reg ∙ left) in
      let (child, before, after, named, old, new, got) =
        laws.sequential_law path addr q (ensure_path zk path s) s' e in
      (
        before,
        after,
        old,
        subst
            (λ t.
              discover zk path finder t
              ≡ addresses zk path before t ++ (addr ∷ addresses zk path after t))
            at_s'
            (discover_among path addr child before after finder s' connected' handle' some_byte fits
              new (ap (λ p. zk.get p s') (sym named) ∙ got)),
      )
