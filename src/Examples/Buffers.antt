-- ===== src/Examples/Buffers.antt =====
-- The buffers of runtime/bytebufferpool.go and the Writer of runtime/writer.go.
use cbor.Base.{ap, ◌+◌, ◌^◌, ◌≤◌, ◌≡◌, List, [], ◌∷◌, Bytes, pos, length, none, arith}
use cbor.Result.{ok}
use cbor.Wire.{make_byte}
use cbor.Append.{append_break}
use cbor.Values.{append_interface, object}
use cbor.Buffer.{ByteBuffer, append_item, break, cap, grown}
use cbor.Buffer.Growth.{grown-endless}
use cbor.Buffer.Refinement.{Call, writes, writes_byte, ensures, appends, acts, run}
use cbor.Buffer.InPlace.{run-in_place}
use cbor.Buffer.Stream.{IsReader, room-Offered, read_from, read_from-joined, answers, eof}
use cbor.Writer.{writer_bytes}
use cbor.Writer.Objects.{Scalar, int, as_fields, write_object, write_object-append_interface}

-- Nothing is behind what append allocates.
abbrev nothing : ByteBuffer → Bytes → Bytes
nothing old new = []

abbrev fresh : ByteBuffer
fresh = record { content = []; spare = [] }

abbrev four_free : ByteBuffer
four_free = record { content = []; spare = 0 ∷ 0 ∷ 0 ∷ 0 ∷ [] }

abbrev few_calls : List Call
few_calls = writes (1 ∷ 2 ∷ []) ∷ ensures 5 ∷ writes_byte 7 ∷ appends break ∷ []

abbrev appending_calls : List Call
appending_calls = writes (1 ∷ 2 ∷ []) ∷ writes_byte 7 ∷ appends break ∷ []

calls-fit : length (acts [] appending_calls) ≤ cap four_free
unfolding cap append_item append_break make_byte
calls-fit = omega arith

run-in_place_example :
    (bb : ByteBuffer) × (run 0 nothing four_free appending_calls ≡ ok bb)
    × (bb.content ≡ acts [] appending_calls)
    × (cap bb ≡ cap four_free)
run-in_place_example =
    run-in_place 0 nothing appending_calls four_free (tt, (tt, (tt, tt))) calls-fit

grown-endless_example : grown 64 1024 (2 ^ 62 + 1) ≡ none
grown-endless_example = grown-endless 64 10 (2 ^ 62 + 1) (omega arith) (omega arith)

two_reads-IsReader : IsReader 100000 nothing fresh ((1 ∷ 2 ∷ []) ∷ []) (3 ∷ [])
two_reads-IsReader =
    room-Offered 100000 nothing fresh (1 ∷ 2 ∷ []) (λ bb. IsReader 100000 nothing bb [] (3 ∷ []))
      (omega arith) (omega arith) (omega arith) (omega arith)
      (λ bb e.
        let two = ap length e in
        room-Offered 100000 nothing bb (3 ∷ []) (λ b. Unit {0}) (omega arith) (omega arith)
          (omega arith) (omega arith) (λ b f. tt))

read_from-joined_example :
    (bb : ByteBuffer) × (read_from 100000 nothing fresh 0 (answers ((1 ∷ 2 ∷ []) ∷ []) (3 ∷ []) eof)
      ≡ ok (bb, 3, none))
    × (bb.content ≡ 1 ∷ 2 ∷ 3 ∷ [])
read_from-joined_example =
    read_from-joined 100000 nothing ((1 ∷ 2 ∷ []) ∷ []) (3 ∷ []) eof fresh 0 tt two_reads-IsReader
      (omega arith) (omega arith) (omega arith)

abbrev small_object : List (Bytes × Scalar)
small_object = (97 ∷ [], int (pos 5)) ∷ []

write_object-append_interface_example :
    append_interface (writer_bytes (record { bb = fresh })) (object (as_fields small_object))
    ≡ ok (writer_bytes (write_object 4096 nothing (record { bb = fresh }) small_object))
write_object-append_interface_example =
    write_object-append_interface 4096 nothing (record { bb = fresh }) small_object
