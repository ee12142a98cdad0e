-- ===== src/Device/SdCard/Blocks.antt =====
-- A block that is written to the SD card over the bus is read back over the bus.
use embed_bench.Prelude.{
  ℕ, suc, ◌+◌, ◌*◌, ◌%◌, ◌^◌, ◌≤◌, ◌<◌, ◌≡◌, ◌≢◌, refl, ap, sym, subst, ◌∙◌, true, ◌||◌, Option,
  some, List, [], ◌∷◌, ◌++◌, ◌==◌, length, take, drop, get_elem?, splice, replicate, drop-get_elem,
  length-splice, take-splice, length-append, append_nil, append-append, arith,
}
use embed_bench.Trace.{word32}
use embed_bench.Device.Port.{HostPort, clock, wake}
use embed_bench.Device.SdCard.{
  Phase, command_phase, reply_phase, read_phase, write_wait, SdCard, block_size, block_count,
  store_size, write_us, token_start, data_accepted, r1_ok, transfer_block, begin_block, run_command,
  begin_command, command_byte, read_byte, write_byte, in_phase, spi_transfer, commit, advance_to,
}
use embed_bench.Device.SdCard.Exchange.{
  ready, Ready, Ready-ready, writing, reading, programming, command_of, write_session,
  write_answers, read_session, read_answers, exchange, Talk, exchange_two, exchange_one, hush,
}

module _ {ℓ} {P : Type ℓ} where
  module _ (port : Option (HostPort P)) where
    command_more :
        (m : ℕ) (c : SdCard) (p : P)
        → m ≢ 255
        → length c.command < 5
        → command_byte port m c p ≡ (255, record c { command = c.command ++ m ∷ [] }, p)
    unfolding command_byte
    command_more m c p h l = ground (arith, h, l, length-append c.command (m ∷ []))

    command_end :
        (m : ℕ) (c : SdCard) (p : P)
        → m ≢ 255
        → length c.command ≡ 5
        → command_byte port m c p ≡ (
          255,
          (begin_command port (record c { command = c.command ++ m ∷ [] }) p).0,
          (begin_command port (record c { command = c.command ++ m ∷ [] }) p).1,
        )
    unfolding command_byte
    command_end m c p h l = ground (arith, h, l, length-append c.command (m ∷ []))

    -- A byte that arrives while the card waits for a command.
    at_command :
        (m : ℕ) (c : SdCard) (p : P)
        → spi_transfer port m (record c { selected = true; phase = command_phase }) p
          ≡ some (command_byte port m (record c { selected = true; phase = command_phase }) p)
    unfolding spi_transfer in_phase
    at_command m c p = refl

    begin_lem :
        (op b crc : ℕ) (c : SdCard) (p : P)
        → (op == 81 || (op == 88)) ≡ true
        → b < block_count
        → begin_command port (record (ready c) { command = command_of op b crc }) p
          ≡ (transfer_block op (record (ready c) { block = b }), p)
    unfolding begin_command run_command begin_block
    begin_lem op b crc c p known h = ground (arith, known, h)

    send_command :
        (op b crc : ℕ) (c : SdCard) (p : P)
        → (op == 81 || (op == 88)) ≡ true
        → b < block_count
        → crc ≢ 255
        → Talk port
            (command_of op b crc)
            (replicate 6 255)
            (ready c)
            (transfer_block op (record (ready c) { block = b }))
            p
            p
    send_command op b crc c p known h k =
        let byte = λ (m : ℕ) (ms : List ℕ) (n : m ≢ 255) (l : length ms < 5).
          at_command m (record (ready c) { command = ms }) p
          ∙ ap some (command_more m (record (ready c) { command = ms }) p n l) in
        exchange_one (byte op [] (ground (arith, known)) (omega arith)) (
          exchange_one (byte 0 (op ∷ []) (omega arith) (omega arith)) (
            exchange_one (byte 0 (op ∷ 0 ∷ []) (omega arith) (omega arith)) (
              exchange_one (byte 0 (op ∷ 0 ∷ 0 ∷ []) (omega arith) (omega arith)) (
                exchange_one (byte b (op ∷ 0 ∷ 0 ∷ 0 ∷ []) (omega (arith, h)) (omega arith)) (
                  exchange_one
                    (at_command crc (record (ready c) { command = op ∷ 0 ∷ 0 ∷ 0 ∷ b ∷ [] }) p
                      ∙ ap some (
                          command_end crc _ p k refl
                          ∙ ap (λ (r : SdCard × P). (255, r.0, r.1))
                              (begin_lem op b crc c p known h)))
                    hush)))))

    -- The card hands over its reply.
    take_reply :
        (m : ℕ) (next : Phase) (c : SdCard) (p : P)
        → spi_transfer port m
            (record (ready c) { pending = r1_ok; after = next; phase = reply_phase })
            p
          ≡ some
              (r1_ok, record (ready c) { pending = 255; offset = 0; after = next; phase = next }, p)
    unfolding spi_transfer in_phase
    take_reply m next c p = refl

    start_token :
        (c : SdCard) (p : P)
        → spi_transfer port token_start (record (ready c) { phase = write_wait }) p
          ≡ some (255, writing 0 [] c, p)
    unfolding spi_transfer in_phase
    start_token c p = refl

    write_one :
        (m n : ℕ) (bytes : List ℕ) (c : SdCard) (p : P)
        → n < block_size
        → spi_transfer port m (writing n bytes c) p
          ≡ some (255, writing (n + 1) (bytes ++ m ∷ []) c, p)
    unfolding spi_transfer in_phase write_byte
    write_one m n bytes c p h = ground (arith, h)

    write_bytes :
        (ms : List ℕ) (n : ℕ) (bytes : List ℕ) (c : SdCard) (p : P)
        → n + length ms ≤ block_size
        → Talk port ms
            (replicate (length ms) 255)
            (writing n bytes c)
            (writing (n + length ms) (bytes ++ ms) c)
            p
            p
    write_bytes [] n bytes c p h =
        subst (λ k. Talk port [] [] (writing n bytes c) (writing k (bytes ++ []) c) p p) {x = n}
          (omega arith)
          (subst (λ ys. Talk port [] [] (writing n bytes c) (writing n ys c) p p)
            (sym (append_nil bytes)) hush)
    write_bytes (m ∷ ms) n bytes c p h =
        let answers = replicate (length (m ∷ ms)) 255 in
        let rest = write_bytes ms (n + 1) (bytes ++ m ∷ []) c p (omega (arith, h)) in
        subst
          (λ k.
            Talk port (m ∷ ms) answers (writing n bytes c) (writing k (bytes ++ (m ∷ ms)) c) p p)
          {x = n + 1 + length ms} (omega arith)
          (subst
            (λ ys.
              Talk port (m ∷ ms) answers (writing n bytes c) (writing (n + 1 + length ms) ys c) p p)
            (append-append bytes (m ∷ []) ms)
            (exchange_one (write_one m n bytes c p (omega (arith, h))) rest))

    read_one :
        (m n v : ℕ) (c : SdCard) (p : P)
        → n < block_size
        → get_elem? c.store (c.block * block_size + n) ≡ some v
        → spi_transfer port m (reading (suc n) c) p ≡ some (v, reading (suc (suc n)) c, p)
    unfolding spi_transfer in_phase read_byte
    read_one m n v c p h e = ground (arith, h, e)

    read_bytes :
        (ms : List ℕ) (n : ℕ) (c : SdCard) (p : P)
        → n + length ms ≤ block_size
        → c.block < block_count
        → length c.store ≡ store_size
        → Talk port ms
            (take (length ms) (drop (c.block * block_size + n) c.store))
            (reading (suc n) c)
            (reading (suc (n + length ms)) c)
            p
            p
    read_bytes [] n c p h k w =
        subst (λ j. Talk port [] [] (reading (suc n) c) (reading (suc j) c) p p) {x = n}
          (omega arith) hush
    read_bytes (m ∷ ms) n c p h k w =
        let at = c.block * block_size + n in
        let found = drop-get_elem c.store at (omega (arith, h, k, w)) in
        let rest = read_bytes ms (suc n) c p (omega (arith, h)) k w in
        let bytes =
          ap (take (length (m ∷ ms))) found.2
          ∙ ap (λ i. found.0 ∷ take (length ms) (drop i c.store)) {x = suc at}
              {y = c.block * block_size + suc n} (omega arith) in
        subst
          (λ j.
            Talk port (m ∷ ms) (take (length (m ∷ ms)) (drop at c.store)) (reading (suc n) c)
              (reading (suc j) c) p p)
          {x = suc n + length ms} (omega arith)
          (subst
            (λ ys.
              Talk port (m ∷ ms) ys (reading (suc n) c) (reading (suc (suc n + length ms)) c) p p)
            (sym bytes) (exchange_one (read_one m n found.0 c p (omega (arith, h)) found.1) rest))

    checksum_first :
        (m : ℕ) (bytes : List ℕ) (c : SdCard) (p : P)
        → spi_transfer port m (writing 512 bytes c) p ≡ some (255, writing 513 bytes c, p)
    unfolding spi_transfer in_phase write_byte
    checksum_first m bytes c p = refl

    checksum_second :
        (m : ℕ) (bytes : List ℕ) (c : SdCard) (p : P)
        → spi_transfer port m (writing 513 bytes c) p
          ≡ some (
            data_accepted,
            programming ((clock port p + write_us) % 2 ^ 64) bytes c,
            wake port ((clock port p + write_us) % 2 ^ 64) p,
          )
    unfolding spi_transfer in_phase write_byte
    checksum_second m bytes c p = refl

    read_token :
        (m : ℕ) (c : SdCard) (p : P)
        → spi_transfer port m (reading 0 c) p ≡ some (token_start, reading 1 c, p)
    unfolding spi_transfer in_phase read_byte
    read_token m c p = refl

    trailer_first :
        (m : ℕ) (c : SdCard) (p : P)
        → spi_transfer port m (reading 513 c) p ≡ some (255, reading 514 c, p)
    unfolding spi_transfer in_phase read_byte
    trailer_first m c p = refl

    abbrev read_over : SdCard → SdCard
    read_over c = record (ready c) { offset = 515; pending = 255; reads = (c.reads + 1) % word32 }

    trailer_second :
        (m : ℕ) (c : SdCard) (p : P)
        → spi_transfer port m (reading 514 c) p ≡ some (255, read_over c, p)
    unfolding spi_transfer in_phase read_byte
    trailer_second m c p = refl

    -- The card once it has taken a command for block `b`.
    abbrev addressed : ℕ → Phase → SdCard → SdCard
    addressed b next c = record c { block = b; offset = 0; pending = 255; after = next }

    write-Talk :
        (b crc : ℕ) (bytes : List ℕ) (idle x y : ℕ) (c : SdCard) (p : P)
        → b < block_count
        → crc ≢ 255
        → length bytes ≡ 512
        → Talk port
            (write_session b crc bytes idle x y)
            write_answers
            (ready c)
            (programming ((clock port p + write_us) % 2 ^ 64) bytes (addressed b write_wait c))
            p
            (wake port ((clock port p + write_us) % 2 ^ 64) p)
    write-Talk b crc bytes idle x y c p h k l =
        let c' = addressed b write_wait c in
        let body : Talk port bytes (replicate 512 255) (writing 0 [] c') (writing 512 bytes c') p
            p =
          subst
            (λ n.
              Talk port bytes (replicate n 255) (writing 0 [] c') (writing (0 + n) bytes c') p p)
            l (write_bytes bytes 0 [] c' p (omega (arith, l))) in
        let ending =
          exchange_one (checksum_first x bytes c' p)
            (exchange_one (checksum_second y bytes c' p) hush) in
        exchange_two (send_command 88 b crc c p refl h k) (
          exchange_one (take_reply idle write_wait (record c { block = b; offset = 0 }) p)
            (exchange_one (start_token c' p) (exchange_two body ending)))

    read-Talk :
        (b crc : ℕ) (idles : List ℕ) (idle idle' x y : ℕ) (c : SdCard) (p : P)
        → b < block_count
        → crc ≢ 255
        → length idles ≡ 512
        → length c.store ≡ store_size
        → Talk port
            (read_session b crc idles idle idle' x y)
            (read_answers (take 512 (drop (b * block_size) c.store)))
            (ready c)
            (read_over (addressed b read_phase c))
            p
            p
    read-Talk b crc idles idle idle' x y c p h k l w =
        let c' = addressed b read_phase c in
        let start : b * block_size + 0 ≡ b * block_size = omega arith in
        let body : Talk port idles (take 512 (drop (b * block_size) c.store)) (reading 1 c')
            (reading 513 c') p p =
          subst
            (λ n.
              Talk port idles (take n (drop (b * block_size) c.store)) (reading 1 c')
                (reading (suc (0 + n)) c') p p)
            l
            (subst
              (λ i.
                Talk port idles (take (length idles) (drop i c.store)) (reading 1 c')
                  (reading (suc (0 + length idles)) c') p p)
              start (read_bytes idles 0 c' p (omega (arith, l)) h w)) in
        let ending =
          exchange_one (trailer_first x c' p) (exchange_one (trailer_second y c' p) hush) in
        exchange_two (send_command 81 b crc c p refl h k) (
          exchange_one (take_reply idle read_phase (record c { block = b; offset = 0 }) p)
            (exchange_one (read_token idle' c' p) (exchange_two body ending)))

    commit_due :
        (now done : ℕ) (bytes : List ℕ) (c : SdCard)
        → done ≤ now
        → c.block < block_count
        → advance_to now (programming done bytes c) ≡ some (commit (programming done bytes c))
    unfolding advance_to
    commit_due now done bytes c d h = ground (arith, d, h)

    -- A ready card takes a block of 512 bytes over the bus. Once its write time of 4 ms is over, the
    -- block stands in the store and every other block is as it was, and the bytes that a read of
    -- that block brings back are a reply, the start token, the block and two bytes more. The block
    -- number is below 8, and no command byte is 255.
    pub write-read :
        (b crc crc' : ℕ) (bytes idles : List ℕ) (i x y i' j' x' y' now : ℕ) (c : SdCard) (p : P)
        → Ready c
        → b < block_count
        → crc ≢ 255
        → crc' ≢ 255
        → length bytes ≡ 512
        → length idles ≡ 512
        → clock port p + write_us ≤ now
        → (c1 : SdCard) × (p1 : P) × (c2 : SdCard) × (c3 : SdCard) × (exchange port
              (write_session b crc bytes i x y)
              c
              p
            ≡ some (write_answers, c1, p1))
          × (advance_to now c1 ≡ some c2)
          × (c2.store ≡ splice (b * block_size) bytes c.store)
          × (exchange port (read_session b crc' idles i' j' x' y') c2 p1
              ≡ some (read_answers bytes, c3, p1))
    write-read b crc crc' bytes idles i x y i' j' x' y' now c p r h k k' l l' due =
        let done = (clock port p + write_us) % 2 ^ 64 in
        let c1 = programming done bytes (addressed b write_wait c) in
        let c2 = commit c1 in
        let fits : b * block_size + length bytes ≤ length c.store = omega (arith, h, l, r.whole) in
        let whole : length c2.store ≡ store_size =
          length-splice (b * block_size) bytes c.store fits ∙ r.whole in
        let back : take 512 (drop (b * block_size) c2.store) ≡ bytes =
          subst (λ n. take n (drop (b * block_size) c2.store) ≡ bytes) l
            (take-splice (b * block_size) bytes c.store (omega (arith, fits))) in
        let wrote = (write-Talk b crc bytes i x y c p h k l).came in
        let read = (read-Talk b crc' idles i' j' x' y' c2 (wake port done p) h k' l' whole).came in
        (
          c1,
          wake port done p,
          c2,
          read_over (addressed b read_phase c2),
          ap (λ d. exchange port (write_session b crc bytes i x y) d p) (Ready-ready c r) ∙ wrote,
          commit_due now done bytes (addressed b write_wait c) (omega (arith, due)) h,
          refl,
          read
              ∙ ap
                  (λ ys.
                    some (read_answers ys, read_over (addressed b read_phase c2), wake port done p))
                  back,
        )
