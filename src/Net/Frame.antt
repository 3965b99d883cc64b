-- ===== src/Net/Frame.antt =====
-- The frame that net.c builds, byte by byte.
use shad_os.Base.{
  ℕ, zero, suc, ◌+◌, ◌≤◌, ◌<◌, ◌≡◌, ◌⊎◌, ◌∙◌, refl, ap, inl, false, List, [], ◌∷◌, ◌++◌, length,
  length-append, ◌==◌, if◌then◌else◌, arith,
}
use shad_os.String.{Bytes, memset}
use shad_os.String.Compare.{memset-range}
use shad_os.String.Range.{At, At-append, At-same}
use shad_os.Net.{store_bytes, write_be16, sender_ip, arp_frame}

abbrev pub replicate : ℕ → ℕ → List ℕ
replicate zero c = []
replicate (suc n) c = c ∷ replicate n c

length-replicate : (n c : ℕ) → length (replicate n c) ≡ n
length-replicate zero c = refl
length-replicate (suc n) c = ap suc (length-replicate n c)

pub store_bytes-other :
    (dst : ℕ) (s : List ℕ) (m : Bytes) (x : ℕ)
    → (x < dst) ⊎ (dst + length s ≤ x)
    → store_bytes dst s m x ≡ m x
unfolding store_bytes
store_bytes-other dst [] m x h = refl
store_bytes-other dst (c ∷ s) m x h =
    let miss : (x == dst) ≡ false = ground arith in
    store_bytes-other (dst + 1) s (λ a. if a == dst then c else m a) x (omega arith) ∙ rw miss refl

pub store_bytes-At : (dst : ℕ) (s : List ℕ) (m : Bytes) → At (store_bytes dst s m) dst s
unfolding store_bytes
store_bytes-At dst [] m = tt
store_bytes-At dst (c ∷ s) m =
    let m' : Bytes = λ a. if a == dst then c else m a in
    (
      store_bytes-other (dst + 1) s m' dst (omega arith) ∙ ground arith,
      store_bytes-At (dst + 1) s m',
    )

pub constant-At :
    (m : Bytes) (p c n : ℕ) → ((x : ℕ) → p ≤ x → x < p + n → m x ≡ c) → At m p (replicate n c)
constant-At m p c zero same = tt
constant-At m p c (suc n) same = (
  same p (omega arith) (omega arith),
  constant-At m (p + 1) c n (λ x low high. same x (omega arith) (omega arith)),
)

-- The memory from `p` on is `xs`, `n` bytes long.
pub record Grown (m : Bytes) (p : ℕ) (xs : List ℕ) (n : ℕ) : Type 0 where
  pub held : At m p xs
  pub size : length xs ≡ n

-- A store right behind what is held makes it longer.
grow-store :
    {m : Bytes} {p n : ℕ} {xs : List ℕ} (q : ℕ) (s : List ℕ)
    → q ≡ p + n
    → Grown m p xs n
    → Grown (store_bytes q s m) p (xs ++ s) (n + length s)
grow-store {m} {p} {n} {xs} q s e g = record {
  held =
      At-append (store_bytes q s m) p q xs s (omega (arith, g.size))
        (At-same m (store_bytes q s m) p xs
          (λ x low high. store_bytes-other q s m x (inl (omega (arith, g.size)))) g.held)
        (store_bytes-At q s m);
  size = omega (arith, length-append {0} xs s, g.size);
}

grow-memset :
    {m : Bytes} {p n : ℕ} {xs : List ℕ} (q c k : ℕ)
    → q ≡ p + n
    → c < 256
    → Grown m p xs n
    → Grown (memset m q c k) p (xs ++ replicate k c) (n + k)
grow-memset {m} {p} {n} {xs} q c k e small g =
    let set = λ (x : ℕ). memset-range m q c k x in
    record {
      held =
          At-append (memset m q c k) p q xs (replicate k c) (omega (arith, g.size))
            (At-same m (memset m q c k) p xs (λ x low high. (set x).1 (inl (omega (arith, g.size))))
              g.held)
            (constant-At (memset m q c k) q c k
              (λ x low high. (set x).0 (low, high) ∙ omega arith));
      size = omega (arith, length-append {0} xs (replicate k c), length-replicate k c, g.size);
    }

-- An ARP request over Ethernet: to all, from `mac`; hardware 1 and protocol IPv4 with addresses of
-- 6 and 4 bytes, operation 1; the sender's addresses; no hardware address yet, and the one asked
-- for.
abbrev pub arp_request : (mac target_ip : List ℕ) → List ℕ
arp_request mac target_ip =
    replicate 6 0xff
    ++ mac
    ++ (8 ∷ 6 ∷ [])
    ++ (0 ∷ 1 ∷ [])
    ++ (8 ∷ 0 ∷ [])
    ++ (6 ∷ [])
    ++ (4 ∷ [])
    ++ (0 ∷ 1 ∷ [])
    ++ mac
    ++ sender_ip
    ++ replicate 6 0
    ++ target_ip

pub arp_frame-Grown :
    (frame : ℕ) (mac target_ip : List ℕ) (m : Bytes)
    → length mac ≡ 6
    → length target_ip ≡ 4
    → Grown (arp_frame frame mac target_ip m) frame (arp_request mac target_ip) 42
unfolding arp_frame write_be16
arp_frame-Grown frame mac target_ip m six four =
    let nothing : Grown m frame [] 0 = record { held = tt; size = refl } in
    let to_all = grow-memset frame 0xff 6 (omega arith) (omega arith) nothing in
    let from_us = grow-store (frame + 6) mac (omega arith) to_all in
    let ethernet = grow-store (frame + 12) (8 ∷ 6 ∷ []) (omega arith) from_us in
    let hardware = grow-store (frame + 14 + 0) (0 ∷ 1 ∷ []) (omega arith) ethernet in
    let protocol = grow-store (frame + 14 + 2) (8 ∷ 0 ∷ []) (omega arith) hardware in
    let length6 = grow-store (frame + 14 + 4) (6 ∷ []) (omega arith) protocol in
    let length4 = grow-store (frame + 14 + 5) (4 ∷ []) (omega arith) length6 in
    let opcode = grow-store (frame + 14 + 6) (0 ∷ 1 ∷ []) (omega arith) length4 in
    let our_mac = grow-store (frame + 14 + 8) mac (omega arith) opcode in
    let our_ip = grow-store (frame + 14 + 14) sender_ip (omega arith) our_mac in
    let no_mac = grow-memset (frame + 14 + 18) 0 6 (omega arith) (omega arith) our_ip in
    let whole = grow-store (frame + 14 + 24) target_ip (omega arith) no_mac in
    record { held = whole.held; size = omega (arith, whole.size) }
