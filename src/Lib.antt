-- ===== src/Lib.antt =====
-- FAST, the acquisition program of a fast camera: a server that takes commands of its clients, a
-- grabber thread that takes frames, and a storage thread that writes them, which talk to each
-- other through message queues.
--
-- Queue models queue.c and queue.h: the message queue between the threads, its array of messages,
-- its limit and the destructors it runs. A call is one step, since it holds the mutex throughout;
-- what other threads do while `queue_get` waits is a parameter of it.
-- Command models command.c and command.h: the scanner of a command line with its states 0 to 6
-- and 100, the tokens, the texts made of them, and the matching of arguments against patterns.
-- CommandQueue models command_queue.c and command_queue.h: the commands that await a reply, the
-- messages about them and the strings they own.
-- Server models server.c and server.h: the read and write buffers of a connection, its lines and
-- its binary mode (Read), what is written (Write), the timers (Timer), and the list of connections
-- with one cycle of the server over it (Cycle). A connection is named by its address.
-- Storage models fast_storage.c: the storage thread as a state machine over the messages that it
-- takes from a Queue; files and directories are a list of events.
-- Time models the integer part of time_str.c and time_str.h: the identifiers of times, the morning
-- after a time, their texts (Text) and what is read from them (Parse), the times of the system and
-- steps of time (Clock), and the calendar of Julian dates (Julian). Utils models the checksum and the binary text of utils.c,
-- Utils.Select its selection of the median, Utils.Options the options of its `parse_args`, Utils.Hex
-- the texts that show data, and Utils.Numbers means and quantiles.
-- Lists models the macros of lists.h on a store of cells with `next` and `prev`; the other modules
-- use lists in the order of foreach.
-- Keywords models the keywords of image_keywords.c and image.h. Image models what image.c does to
-- whole images: making, filling, copying, converting and adding them.
-- Image.Geometry has cropping, scaling and downscaling, as loops over columns, Image.Combine the
-- arithmetic of two images, Image.Statistics the sums and the median, and Image.Smooth the smoothing.
-- Grabber models fast_grabber.c and grabber_fake.c, the grabber thread in the build for the camera
-- that is not there: a round takes a message and a frame, and the loop runs over given rounds.
-- Main models fast.c and fast.h: the state and the flux of a region (Main), a frame and the other
-- messages of the grabber (Process), the images that are shown and the setters of image_jpeg.c
-- (Images), and `process_command`: its settings, its frames and its tests in the order of the
-- code (Commands), `process_web` with the files that it serves (Web), and `main` from its options to its
-- loop (Start). What it sends to
-- connections and queues is a list of actions.
-- Prelude has the names, tests, lists, strings, printed numbers and integers they share.
--
-- Numbers are natural numbers; where the C code can wrap, `% 2 ^ w` is written out, and an
-- identifier of Time is 64 bits wide, and the number of pixels of a new image is the int product of its
-- sizes, which wraps. A string is the list of its bytes without the NUL. A
-- pointer that may be NULL is an Option, and reading through NULL is a run without a result.
--
-- A loop over a string or a list is structural recursion. The loop of `data_read_hook` runs on
-- fuel: one for each byte of the buffer is enough, since a call that consumes nothing ends it.
-- The walk of `server_cycle` begins anew when the last connection is closed; its fuel is one more
-- than there are connections, since each time it begins anew it has closed one.
-- The walks of Lists run on fuel: one more than there are cells. The outer loop of `quick_select`
-- has fuel for one round more than there are elements, since each round drops one at least, and its
-- inner loops have fuel for the length of the array.
-- The digits of a number are printed with fuel for ten digits of an int and twenty of 64 bits.
--
-- What the code takes from elsewhere is a parameter: the hooks and callbacks, how much `read` and
-- `send` transfer, what `select`, `accept` and `getsockopt` answer, the sizes and conversions of
-- cfitsio and of `strtol`, the arithmetic of doubles with its scanning and printing, the shift of
-- coordinates, the clock, the free disk space, the files and the unescaping of the web server, the
-- text that `printf` shows for NULL, and the comparisons of times in double precision. So are the encoder and the decoder of image_jpeg.c and
-- image_fits.c, which are floating point and calls of their libraries. Counts of frames are taken to
-- stay below 2^31, and doubles that are cut to an int to fit. `sscanf` of an argument with a format
-- other than `%s` is a parameter of the program's commands, which read `%d` and `%lf`.
--
-- Not modelled: making the sockets of the server, the loop of the main program, images of
-- negative sizes, the files of images, coordinates and random numbers, the other camera drivers,
-- the Python clients, and the third-party copies in the tree.
pub mod Command
pub mod CommandQueue
pub mod Grabber
pub mod Image
pub mod Keywords
pub mod Lists
pub mod Main
pub mod Prelude
pub mod Queue
pub mod Server
pub mod Storage
pub mod Time
pub mod Utils
