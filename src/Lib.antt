-- ===== src/Lib.antt =====
-- The verification library of the C and C++ programs of this repository.
--
-- The programs are separate university projects; each is a component here, and
-- a file's opening comment names the source file it is about.
--
-- Seq models I year/computer-architecture-and-operating-systems/project1/seq.c,
-- a tree of sequences over the digits 0, 1 and 2 whose nodes share named,
-- reference-counted classes of abstraction.
--   * Seq/Node: struct seq as the data type Node, the classes of a tree, and
--     at/update, which follow a path of digits. A C pointer into a tree is the
--     path that leads to it, so seq_walk returns a path.
--   * Seq/Env: the memory of classes. A class has an address that is never used
--     again after free; the use of a freed class, a second free included, is a
--     fault, and the operation returns none. malloc takes its answers from a list in
--     the state, so that each allocation may fail; an empty list means success.
--   * Seq/Walk, Seq/Add, Seq/Remove, Seq/Query, Seq/Equiv: seq_walk, seq_add,
--     seq_remove and seq_delete, seq_valid with the names, and seq_equiv, each
--     with its helpers and in the order of the source.
--   * Seq/Refs: the invariant of the counters, and what each write does to it.
-- Nodes have no address of their own: to free a subtree is to drop it from the
-- tree. A name is a list of character codes, its buffer has no address either,
-- so a leak of a buffer does not show. The int counter of a class is a natural
-- number. All recursion of this part is on a sequence, a tree or a list.
--
-- Mimpi models II year/concurrent-programming/MIMPI/mimpi.c, a message passing
-- library: one process with its state, its receiver threads and the operations
-- that the user calls.
--   * Mimpi/Process: the global variables as a record, MIMPI_Init.
--   * Mimpi/Wire, Mimpi/Send: the loops over chrecv and chsend, MIMPI_Send.
--   * Mimpi/Receive, Mimpi/Recv: receive_message and the receiver thread, and
--     MIMPI_Recv with the detection of a deadlock.
--   * Mimpi/Ranks, Mimpi/Collective: the tree over the ranks, MIMPI_Barrier,
--     MIMPI_Bcast, MIMPI_Reduce, MIMPI_Finalize.
--   * Mimpi/Search, Mimpi/Outcome, Mimpi/Pending, Mimpi/Sizes: the lists of
--     messages around a call of MIMPI_Recv, with and without a pending message
--     of MIMPI_Barrier.
--   * Mimpi/Summary, Mimpi/Reduction, Mimpi/Gathering: the operations of
--     MIMPI_Reduce on lists of bytes, over a tree of processes, and in a call at
--     the root.
-- channel.h and mimpi.h are not in the repository. What a pipe hands over or
-- takes is a list that the operation is given: the arrivals, and the answers of
-- chsend. MIMPI_Recv waits on a condition variable: each wait takes the next
-- batch of arrivals, and when no batch is left the process is blocked, a result
-- of its own. The recursion is on these lists, so no fuel is chosen.
--
-- SameGame models I year/intro-to-programming/SameGame.c, a move of a game on a
-- board of coloured blocks. A board is a function of the row and the column.
--   * SameGame/Board, SameGame/Move: the input and output of a board, and the
--     move: sprawdz_czy_grupa, usun_grupe, przesun_w_dol, przesun_w_lewo,
--     wykonaj. usun_grupe runs on fuel, the number of fields: each call empties
--     a field of the group before it makes another.
--
-- Life models I year/intro-to-programming/GameOfLife.c, the game of life on a
-- list of cells.
--   * Life/Cells, Life/Generation, Life/Screen: the operations on the list,
--     nowa_generacja_lista, and drukowanie_generacji. The list that
--     nowa_generacja_lista walks over is the part behind and the part ahead of
--     its pointer; if the cell under the pointer is freed, the result is none.
--     The int coordinates are integers without bounds, and malloc, which the
--     program does not test, succeeds. The second loop adds no cell and runs on
--     fuel, the number of cells ahead.
--   * Life/Search, Life/Distinct, Life/Walk, Life/Culling: the positions in the
--     list, lists without two cells at one position, the walk over such a list,
--     and the cells that die.
-- Not modelled of it: the commands of graj and wczytaj, and the sorted listing
-- of zrzut_aktualnej_generacji.
--
-- Queue models II year/concurrent-programming/non-blocking-queues/SimpleQueue.c,
-- a linked list with a lock for each end.
--   * Queue/Simple: the queue and the nodes on the heap by address, and the
--     operations, one at a time. An address is never used again after free; the
--     use of NULL or of a freed node is a fault, none. push is given whether its
--     allocation succeeds.
--   * Queue/Contents: the values that a queue holds, the abstract view.
--   * Queue/Deleted: SimpleQueue_delete, on fuel, the number of nodes ever made.
-- Not modelled of it: a push and a pop at the same time.
--
-- Hazard models II year/concurrent-programming/non-blocking-queues/HazardPointer.c
-- in Hazard/Pointers, one operation at a time, for the thread that is given.
-- HazardPointer_protect is given what its reads find, and spins while two reads
-- differ; the pointers of the other threads stay the same while
-- HazardPointer_retire walks over its list.
--
-- Poset models II year/cpp-course/project2/poset.cc, partially ordered sets with
-- named elements.
--   * Poset/Matrix: the array of relations as a size and a function of two
--     indices, and the loops over it, each with the number of its rounds.
--   * Poset/State, Poset/Messages, Poset/Operations: the map of posets, the queue
--     of free numbers and the counter, the text written to cerr, and the nine
--     functions from poset_new to poset_clear. NDEBUG and to_string are
--     parameters. The numbers are without bounds.
--   * Poset/Order, Poset/Columns, Poset/Closure, Poset/Removal, Poset/Names, Poset/Writes,
--     Poset/Contract, Poset/Covers: a poset as an order between names, and what
--     the functions do to it.
--   * Poset/Ids, Poset/Runs, Poset/Debug: the whole state over any sequence of
--     calls, and the messages.
--
-- KeyStack models II year/cpp-course/project4/stack.h, a stack whose elements have
-- keys. The comparison of the keys is a parameter, a linear order.
--   * KeyStack/Keys, KeyStack/Inner: Inner_stack. A set or a map of the standard
--     library is a list in its order, or a function of the key. The front of an
--     empty set and the top of an empty stack are undefined, none.
--   * KeyStack/Shared: stack, the objects with pointers to inner stacks, which
--     are copied on write. The number of objects with a pointer is its use count.
--   * KeyStack/Contents, KeyStack/Readers, KeyStack/Effects,
--     KeyStack/Sharing, KeyStack/Copies: the keys and values
--     that an object holds, in the order of the pushes.
--   * KeyStack/Heights: pop of a key that is not the top's.
-- Not modelled of it: the rollback after an exception of a key or a value, the
-- writes through the references that front returns, moves and destruction, and
-- the iterator, which walks over the set of keys.
--
-- Cards models the rules of the card game of II year/computer-networks/project2.
--   * Cards/Card: the cards. A suit or a value that passed check_suit and
--     card_values is a constructor, not a text.
--   * Cards/Trick: the winner of a trick, the end of trick_handler in
--     src/server/client_handler.cpp.
--   * Cards/Deal: calculate_points of src/server/deal.cpp. An index outside the
--     scores, as the -1 of a trick that nobody took, is undefined, none.
--   * Cards/Points, Cards/Whole: what it gives out.
--   * Cards/Player, Cards/Legal: check_if_correct_card, set_played_card and
--     select_card of src/common/player.cpp. The first card of the trick, which
--     extract_first_card reads with a regular expression, is an argument.
--
-- Parking models II year/cpp-course/project1/parking.cc, a parking meter that
-- reads lines.
--   * Parking/Meter: the entries, the last hour, and the functions on them up to
--     activate_parking. The lines are a list; the two regular expressions and the
--     functions on text (>>, length, substr, stoi) are a parameter.
--   * Parking/Timeline, Parking/Tracks, Parking/Answers: a meter that keeps every
--     payment with its day, and how the entries stand for the payments.
--
-- Crosswords models II year/cpp-course/project3/crosswords.h, crosswords on a
-- board with coordinates up to SIZE_MAX, which is a parameter.
--   * Crosswords/Area, Crosswords/Word: RectArea and Word. A char is its code;
--     char is signed, as on the machines of the course.
--   * Crosswords/Board: the map of letters as a function of the position. The
--     functions for vertical and for horizontal words are one function of the
--     orientation, and a loop has the number of its rounds.
--   * Crosswords/Crossword, Crosswords/Print: Crossword and its operators. A
--     printing loop up to SIZE_MAX has no end, none.
--   * Crosswords/Areas, Crosswords/Bounds: areas as sets of positions, words at
--     the edge, the order of words.
--   * Crosswords/Cells, Crosswords/Written, Crosswords/Valid, Crosswords/Runs,
--     Crosswords/Printed: what can be read on the board and in the text.
-- Not modelled of it: copies and moves, and the setters of RectArea.
--
-- Udpr models the transfer of a text over UDP, with and without retransmissions,
-- in II year/computer-networks/project1.
--   * Udpr/Wire: the packets of include/common.h. What recvfrom gives is a list of
--     timeouts, failures and datagrams, a datagram is its size and its fields;
--     whether a call of sendto succeeds is a function of its number. When the list
--     ends, a program waits on.
--   * Udpr/Client: src/client_udpr.c. The loop over the chunks is on fuel, as much
--     as there are bytes.
--   * Udpr/Server: src/server_udpr.c and the session of src/server_udp_udpr.c
--     that uses it. The loop over the packets is on fuel, one more than there are
--     events, since every round but the last takes one.
--   * Udpr/Connection: src/server_udp.c, and a round of handle_udp_connection in
--     src/server_udp_udpr.c.
--   * Udpr/Plain: src/client_udp.c, with as much fuel as bytes.
--   * Udpr/Sending, Udpr/Answers, Udpr/Receiving, Udpr/Session, Udpr/Rounds,
--     Udpr/Transfer: what is sent, and how a transfer ends.
-- Not modelled of it: sockets, and the reading of the input.
--
-- Prelude holds the names of the standard library that the parts share, Boolean
-- tests on numbers, lists over native numbers and signed integers.
--
-- Not modelled: the launcher mimpirun.c and mimpi_common.c (processes, pipes and
-- environment variables), the other queues of non-blocking-queues, the
-- other programs of II year/computer-networks (sockets), the other projects of
-- II year/cpp-course, and the exercises in Java, Haskell, OCaml, Python and
-- assembly.

pub mod Cards
pub mod Crosswords
pub mod Hazard
pub mod KeyStack
pub mod Life
pub mod Mimpi
pub mod Parking
pub mod Poset
pub mod Prelude
pub mod Queue
pub mod SameGame
pub mod Seq
pub mod Udpr
