-- ===== src/ChunkFileStore/Accepting.antt =====
-- A header that `read` accepts is one that `write` puts: nothing else passes for a chunk file.
use mathlib.Core.List.{append_assoc}
use kvflux.Base.{
  ℕ, ◌≡◌, refl, sym, ap, subst, ◌∙◌, not, List, ◌++◌, ltb, ◌==◌, ==_eq, length, list_eq,
  list_eq_sound, ok,
}
use kvflux.BlockManager.{Tokens}
use kvflux.CacheDirectory.{dtype_code}
use kvflux.ChunkFileStore.Bytes.{
  put_u32, put_u64, read_all, read_le, Bytes, read_all-Read, read_le-put,
}
use kvflux.ChunkFileStore.Header.{
  magic, put_tokens, put_fields, serialize_header, fill_in, chunk_checksum, check, read_dtype,
  Parsed, Fixed, read_name, read_fixed, read_prefix, read_tail, read_fields, read_header,
}
use kvflux.ChunkFileStore.Reading.{
  bind_ok, check_ok, return_ok, read_u32-put, read_tokens-put, read_dtype-put,
  fill_in-serialize_header,
}

read_name-put :
    (name s rest : List ℕ)
    → Bytes s
    → read_name s ≡ (ok name, rest)
    → (s ≡ magic ++ (put_u32 1 ++ (put_u32 (length name) ++ (name ++ rest)))) × Bytes rest
unfolding read_name
read_name-put name s rest b e =
    let (lead, s0, a0, e0) = bind_ok (read_all 4) _ s name rest e in
    let r0 = read_all-Read 4 s lead s0 b a0 in
    let (u, s0', c0, e1) = bind_ok (check (list_eq lead magic)) _ s0 name rest e0 in
    let (is_magic, k0) = check_ok (list_eq lead magic) s0 s0' u c0 in
    let (version, s1, a1, e2) = bind_ok (read_le 4) _ s0' name rest e1 in
    let (w1, _, b1) = read_u32-put version s0' s1 (subst Bytes k0 r0.left) a1 in
    let (u1, s1', c1, e3) = bind_ok (check (version == 1)) _ s1 name rest e2 in
    let (is_one, k1) = check_ok (version == 1) s1 s1' u1 c1 in
    let (n, s2, a2, e4) = bind_ok (read_le 4) _ s1' name rest e3 in
    let (w2, _, b2) = read_u32-put n s1' s2 (subst Bytes k1 b1) a2 in
    let (u2, s2', c2, e5) = bind_ok (check (not (ltb 4096 n))) _ s2 name rest e4 in
    let (_, k2) = check_ok (not (ltb 4096 n)) s2 s2' u2 c2 in
    let r3 = read_all-Read n s2' name rest (subst Bytes k2 b2) e5 in
    let v : s2 ≡ name ++ rest = k2 ∙ r3.whole in
    let v2 : s1 ≡ put_u32 (length name) ++ (name ++ rest) = k1 ∙ (w2 ∙ rw (v, r3.length) refl) in
    let v1 : s0 ≡ put_u32 1 ++ (put_u32 (length name) ++ (name ++ rest)) =
      k0 ∙ (w1 ∙ rw (v2, ==_eq version 1 is_one) refl) in
    (r0.whole ∙ rw (v1, list_eq_sound lead magic is_magic) refl, r3.left)

read_fixed-put :
    (f : Fixed) (s rest : List ℕ)
    → Bytes s
    → read_fixed s ≡ (ok f, rest)
    → (s
        ≡ put_u32 f.layout_version
          ++ (put_u32 (dtype_code f.dtype)
              ++ (put_u32 f.first_layer
                  ++ (put_u32 f.last_layer ++ (put_u64 f.prefix_hash ++ rest)))))
      × Bytes rest
unfolding read_fixed
read_fixed-put f s rest b e =
    let (layout, s4, a4, e7) = bind_ok (read_le 4) _ s f rest e in
    let (w4, _, b4) = read_u32-put layout s s4 b a4 in
    let (dtype, s5, a5, e8) = bind_ok read_dtype _ s4 f rest e7 in
    let (w5, b5) = read_dtype-put dtype s4 s5 b4 a5 in
    let (first, s6, a6, e9) = bind_ok (read_le 4) _ s5 f rest e8 in
    let (w6, _, b6) = read_u32-put first s5 s6 b5 a6 in
    let (last, s7, a7, e10) = bind_ok (read_le 4) _ s6 f rest e9 in
    let (w7, _, b7) = read_u32-put last s6 s7 b6 a7 in
    let (hash, s8, a8, e11) = bind_ok (read_le 8) _ s7 f rest e10 in
    let (w8, _, b8) = read_le-put 8 hash s7 s8 b7 a8 in
    let (all, same) = return_ok _ f s8 rest e11 in
    let whole =
      w4
      ∙ ap (λ l. put_u32 layout ++ l)
          (w5
            ∙ ap (λ l. put_u32 (dtype_code dtype) ++ l)
                (w6
                  ∙ ap (λ l. put_u32 first ++ l)
                      (w7
                        ∙ ap (λ l. put_u32 last ++ l) (w8 ∙ ap (λ l. put_u64 hash ++ l) same)))) in
    rw⁻¹ all (whole, subst Bytes same b8)

read_prefix-put :
    (prefix : Tokens) (s rest : List ℕ)
    → Bytes s
    → read_prefix s ≡ (ok prefix, rest)
    → (s ≡ put_u64 (length prefix) ++ (put_tokens prefix ++ rest)) × Bytes rest
unfolding read_prefix
read_prefix-put prefix s rest b e =
    let (m, s9, a9, e12) = bind_ok (read_le 8) _ s prefix rest e in
    let (w9, _, b9) = read_le-put 8 m s s9 b a9 in
    let (u9, s9', c9, e13) = bind_ok (check (not (ltb 4194304 m))) _ s9 prefix rest e12 in
    let (_, k9) = check_ok (not (ltb 4194304 m)) s9 s9' u9 c9 in
    let (size, w10, b10) = read_tokens-put m prefix s9' rest (subst Bytes k9 b9) e13 in
    (w9 ∙ rw (k9 ∙ w10, size) refl, b10)

read_tail-put :
    (name : List ℕ) (f : Fixed) (prefix : Tokens) (p : Parsed) (s rest : List ℕ)
    → Bytes s
    → read_tail name f prefix s ≡ (ok p, rest)
    → magic
          ++ (put_u32 1
              ++ (put_u32 (length name)
                  ++ (name
                      ++ (put_u32 f.layout_version
                          ++ (put_u32 (dtype_code f.dtype)
                              ++ (put_u32 f.first_layer
                                  ++ (put_u32 f.last_layer
                                      ++ (put_u64 f.prefix_hash
                                          ++ (put_u64 (length prefix)
                                              ++ (put_tokens prefix ++ s))))))))))
        ≡ put_fields p.meta ++ (put_u64 p.payload_sum ++ rest)
      × Bytes rest
unfolding read_tail put_fields
read_tail-put name f prefix p s rest b e =
    let (valid, s11, a11, e15) = bind_ok (read_le 8) _ s p rest e in
    let (w11, _, b11) = read_le-put 8 valid s s11 b a11 in
    let (payload, s12, a12, e16) = bind_ok (read_le 8) _ s11 p rest e15 in
    let (w12, _, b12) = read_le-put 8 payload s11 s12 b11 a12 in
    let (sum, s13, a13, e17) = bind_ok (read_le 8) _ s12 p rest e16 in
    let (w13, _, b13) = read_le-put 8 sum s12 s13 b12 a13 in
    let (all, same) = return_ok _ p s13 rest e17 in
    let tail : s ≡ put_u64 valid ++ (put_u64 payload ++ (put_u64 sum ++ rest)) =
      w11
      ∙ ap (λ l. put_u64 valid ++ l)
          (w12 ∙ ap (λ l. put_u64 payload ++ l) (w13 ∙ ap (λ l. put_u64 sum ++ l) same)) in
    rw⁻¹ all (rw tail (simp append_assoc), subst Bytes same b13)

-- What was read as the fields is what is put for them.
pub read_fields-put :
    (p : Parsed) (s rest : List ℕ)
    → Bytes s
    → read_fields s ≡ (ok p, rest)
    → (s ≡ put_fields p.meta ++ (put_u64 p.payload_sum ++ rest)) × Bytes rest
unfolding read_fields
read_fields-put p s rest b e =
    let (name, s1, a1, e1) = bind_ok read_name _ s p rest e in
    let (w1, b1) = read_name-put name s s1 b a1 in
    let (f, s2, a2, e2) = bind_ok read_fixed _ s1 p rest e1 in
    let (w2, b2) = read_fixed-put f s1 s2 b1 a2 in
    let (prefix, s3, a3, e3) = bind_ok read_prefix _ s2 p rest e2 in
    let (w3, b3) = read_prefix-put prefix s2 s3 b2 a3 in
    let (w4, b4) = read_tail-put name f prefix p s3 rest b3 e3 in (w1 ∙ rw (w2, w3) w4, b4)

-- A header that is accepted is, byte for byte, the one that `write` puts for the fields read from it,
-- with its checksum.
pub read_header-put :
    (p : Parsed) (s rest : List ℕ)
    → Bytes s
    → read_header s ≡ (ok p, rest)
    → let header = put_fields p.meta ++ put_u64 p.payload_sum in
      (s ≡ header ++ (put_u64 (chunk_checksum header) ++ rest)) × Bytes rest
unfolding read_header
read_header-put p s rest b e =
    let (p0, s0, a0, e0) = bind_ok read_fields _ s p rest e in
    let (w0, b0) = read_fields-put p0 s s0 b a0 in
    let (sum, s1, a1, e1) = bind_ok (read_le 8) _ s0 p rest e0 in
    let (w1, _, b1) = read_le-put 8 sum s0 s1 b0 a1 in
    let built : List ℕ = fill_in (serialize_header p0.meta) p0.payload_sum in
    let (u, s1', c1, e2) = bind_ok (check (chunk_checksum built == sum)) _ s1 p rest e1 in
    let (right, k1) = check_ok (chunk_checksum built == sum) s1 s1' u c1 in
    let (all, same) = return_ok p0 p s1' rest e2 in
    let header : List ℕ = put_fields p0.meta ++ put_u64 p0.payload_sum in
    let sum_is : sum ≡ chunk_checksum header =
      sym (==_eq (chunk_checksum built) sum right)
      ∙ ap chunk_checksum (fill_in-serialize_header p0.meta p0.payload_sum) in
    subst
      (λ (x : Parsed).
        let h = put_fields x.meta ++ put_u64 x.payload_sum in
        (s ≡ h ++ (put_u64 (chunk_checksum h) ++ rest)) × Bytes rest)
      all
      (
        w0
            ∙ (ap (λ l. put_fields p0.meta ++ (put_u64 p0.payload_sum ++ l))
                  (w1
                    ∙ (ap (λ k. put_u64 k ++ s1) sum_is
                        ∙ ap (λ l. put_u64 (chunk_checksum header) ++ l) (k1 ∙ same)))
                ∙ sym (
                    append_assoc (put_fields p0.meta) (put_u64 p0.payload_sum)
                      (put_u64 (chunk_checksum header) ++ rest))),
        subst Bytes (k1 ∙ same) b1,
      )
