-- ===== src/Lib.antt =====
-- The CBOR codec of this repository: the encoders, readers, walkers and the strict reader of the
-- package runtime (Go), as functions on lists of bytes.
--
-- The encoders (runtime/write_bytes.go) append items to a buffer, and the readers
-- (runtime/read_bytes.go) take one item off the front of a slice and return the rest. Both build on
-- one pair of functions for the header of an item, appendUintCore and readUintCore, beside fast
-- paths that read or write the header by hand. `Skip` and `ValidateWellFormedBytes` walk over an
-- item of any kind; sequences and maps are walked with `Skip`. `Reader` (runtime/reader.go) wraps
-- the readers in a state and adds strict checks: shortest headers only, no indefinite lengths, a
-- limit for containers.
--
-- Base       numbers, lists, integers and Boolean tests that all files share
-- Result     runtime/errors.go and the types of runtime/defs.go: errors as values, outcomes of a call
-- Wire       runtime/defs.go: makeByte, getMajorType, getAddInfo; appendUintCore, readUintCore
-- Append     runtime/write_bytes.go: AppendInt64, AppendString, AppendBytes, AppendSimpleValue, …
-- Ints       runtime/read_bytes.go: ReadInt64Bytes … ReadInt8Bytes, ReadUint64Bytes … ReadUint8Bytes
-- Headers    runtime/read_bytes.go: ReadMapHeaderBytes, ReadArrayHeaderBytes, ReadBoolBytes,
--            ReadNilBytes, ReadSimpleValue, ReadTagBytes, the floats; runtime/helpers.go: NextType
-- Loops      the loops over the items of a container and the chunks of a string
-- Strings    runtime/read_bytes.go: ReadStringZC, ReadStringBytes, ReadBytesBytes, ReadMapKeyZC
-- Skip       runtime/read_bytes.go: Skip; runtime/validate.go: ValidateWellFormedBytes,
--            ValidateDocument
-- Sequence   runtime/read_bytes.go: ForEachSequenceBytes, SplitSequenceBytes, AppendSequence,
--            AppendSequenceFunc
-- Maps       runtime/read_bytes.go: ReadMapNoDupBytes, ReadOrderedMapBytes, ReadMapStrStrBytes
-- Canonical  runtime/reader.go: isNonCanonicalLength
-- Reader     runtime/reader.go: Reader and its methods
-- Tags       tagged texts, byte strings, bignums and fractions of both files
-- Values     runtime/write_bytes.go: AppendInterface, and the encoders of slices and maps
-- Deterministic  runtime/write_bytes.go: AppendRawMapDeterministic, AppendMapDeterministic,
--            AppendMapStrStrDeterministic and their kin
-- Floats     half and canonical floats of both files, and the float methods of Reader
-- Errors     runtime/errors.go: WrapError, Cause, Resumable, and the messages
-- Diag       runtime/diag.go: DiagBytes
-- Json       runtime/helpers.go: IsLikelyJSON; runtime/json_number.go
-- Raw        runtime/read_bytes.go: IsNil and Raw
-- Number     runtime/number.go: Number
-- Buffer     runtime/bytebufferpool.go: ByteBuffer
-- Writer     runtime/writer.go: Writer
-- Examples   the results at concrete inputs, and runs
--
-- A byte slice is a list of numbers; a hypothesis `All IsByte` says that they are below 256. A
-- slice that a function returns is its contents: aliasing of results with the input or with a
-- scratch buffer, and spare capacity but for that of a ByteBuffer, show in no result. A reader that
-- fails returns the input slice beside the error; the model keeps the error. An `int` and a `uint`
-- have 64 bits. A float is its bit pattern. A slice expression that is out of bounds is the outcome
-- `panic`.
--
-- Bounds and fuel: a walk has recursionLimit + 1 levels, as in the source. A loop up to a break or
-- the end of the buffer runs on fuel, the length of the buffer and one; every round takes a byte at
-- least, so the fuel does not run out. Running out is the outcome `stuck`. A loop that counts
-- recurses on the count. The loop of Ensure, which doubles a capacity of 64 bits, runs on 64 rounds;
-- for up to 2^62 bytes they are enough. ReadFrom recurses on the list of the answers of its reader,
-- and is `stuck` if they run out before an error. IsReader is what io.Reader promises of them: a call
-- brings no more bytes than the free part that it is offered.
--
-- The UTF-8 validator is a variable of the package that a build may replace, and a parameter of the
-- functions here. A callback of a sequence is a function on a state.
--
-- sort.Slice is a parameter, with the hypothesis IsSortSlice: given a strict weak order it returns a
-- sorted permutation. So is what the scratch array of the radix sort holds before its rounds. The
-- conversions between float32 and float64, and Ldexp, are parameters; IsLdexp is the documented value
-- of Ldexp. strconv is a parameter in the messages of errors and, with encoding/hex, in the record
-- Formats of the diagnostic notation.
--
-- A value that AppendInterface takes is a tree; what reflection finds of it, and the order in which
-- `range` visits a map, are part of the tree. A big.Int is an integer. Fits is the hypothesis
-- on a value, and it asks for valid texts: AppendString does not validate, and the readers do.
--
-- Not modelled: times and compiled regular expressions, the float arithmetic and the text of a
-- Number, the conversion of items to and from JSON, the code generator cborgen, and generated code.
pub mod Base
pub mod Result
pub mod Wire
pub mod Append
pub mod Ints
pub mod Headers
pub mod Loops
pub mod Strings
pub mod Skip
pub mod Sequence
pub mod Maps
pub mod Canonical
pub mod Reader
pub mod Tags
pub mod Values
pub mod Deterministic
pub mod Floats
pub mod Errors
pub mod Diag
pub mod Json
pub mod Raw
pub mod Number
pub mod Buffer
pub mod Writer
pub mod Examples
