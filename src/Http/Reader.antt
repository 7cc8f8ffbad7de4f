-- ===== src/Http/Reader.antt =====
-- `_RequestReader`: the reads of a request, under one deadline.
use lan_chat.Base.{
  ℕ, zero, suc, ◌-◌, min, max, true, false, Option, none, some, List, [], ◌∷◌, ◌++◌, ◌==◌, ltb, leb,
  length, take, drop, if◌then◌else◌,
}

-- What a socket still brings, each piece of at least one byte at its time: then the end of the
-- stream at its time, or nothing ever.
pub data Sock : Type 0 where
  quiet : Sock
  closed : ℕ → Sock
  arrives : ℕ → ℕ → List ℕ → Sock → Sock

pub data Recv : Type 0 where
  late : Recv
  chunk : List ℕ → ℕ → Sock → Recv

-- The piece that is left of bytes that came at `t`.
abbrev pub leftover : ℕ → List ℕ → Sock → Sock
leftover t [] sock = sock
leftover t (b ∷ bs) sock = arrives t b bs sock

-- `_remaining` and `recv(n)`, where 0 < n: the time left until the deadline is the socket's timeout.
unfoldable pub recv : ℕ → ℕ → ℕ → Sock → Recv
recv deadline n now quiet = late
recv deadline n now (closed t) =
    if ltb (max now t) deadline then chunk [] (max now t) (closed t) else late
recv deadline n now (arrives t b bs sock) =
    if ltb (max now t) deadline
    then chunk (take n (b ∷ bs)) (max now t) (leftover t (drop n (b ∷ bs)) sock)
    else late

pub record RequestReader : Type 0 where
  pub buf : List ℕ
  pub now : ℕ
  pub sock : Sock

-- A read gives bytes, raises `socket.timeout`, or has run out of the model's fuel.
pub data Read : Type 0 where
  bytes : List ℕ → RequestReader → Read
  timeout out_of_fuel : Read

-- `buf.find(b"\n")`
unfoldable pub find_nl : List ℕ → Option ℕ
find_nl [] = none
find_nl (c ∷ cs) =
    let rest = find_nl cs in
    if c == 10 then some 0 else elim rest [ none ↦ none | some i ↦ some (suc i) ]

-- The first `n` bytes of the buffer are handed out.
abbrev pub hand_out : ℕ → RequestReader → Read
hand_out n r = bytes (take n r.buf) (record r { buf = drop n r.buf })

unfoldable pub readline : ℕ → ℕ → ℕ → RequestReader → Read
unfolding find_nl recv
readline zero deadline maxlen r = out_of_fuel
readline (suc fuel) deadline maxlen r = elim (find_nl r.buf) [
  | some nl ↦ if ltb maxlen (suc nl) then hand_out maxlen r else hand_out (suc nl) r
  | none ↦ elim (leb maxlen (length r.buf)) [
    | true ↦ hand_out maxlen r
    | false ↦ elim (recv deadline (min 4096 (maxlen - length r.buf)) r.now r.sock) [
      | late ↦ timeout
      | chunk [] now sock ↦ bytes (take maxlen r.buf) (record r { now = now; sock = sock })
      | chunk (b ∷ bs) now sock ↦
          readline fuel deadline maxlen (record { buf = r.buf ++ b ∷ bs; now = now; sock = sock })
    ]
  ]
]

-- `read(n)` for a length `n`, with the bytes that it has so far.
unfoldable pub read : ℕ → ℕ → ℕ → List ℕ → RequestReader → Read
unfolding recv
read zero deadline n out r = out_of_fuel
read (suc fuel) deadline n out r = elim (ltb (length out) n) [
  | false ↦ bytes out r
  | true ↦ elim r.buf [
    | b ∷ bs ↦
        read fuel deadline n (out ++ take (n - length out) r.buf)
          (record r { buf = drop (n - length out) r.buf })
    | [] ↦ elim (recv deadline (min (n - length out) 4096) r.now r.sock) [
      | late ↦ timeout
      | chunk [] now sock ↦ bytes out (record r { now = now; sock = sock })
      | chunk (b ∷ bs) now sock ↦
          read fuel deadline n (out ++ b ∷ bs) (record r { now = now; sock = sock })
    ]
  ]
]
