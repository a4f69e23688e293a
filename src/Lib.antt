-- ===== src/Lib.antt =====
-- netdisk4tc is a file system plugin for Total Commander: it shows network disks as folders.
-- Lua scripts (entries/) know the protocols; the C code keeps the configured disks, serves the
-- file manager's calls, and gives the scripts an HTTP client. This library models the C code of
-- netdisk4tc/ and proves what makes its parts correct.
--
-- The parts and where they are modelled:
-- Base: numbers, lists and texts, and `Run`, the result of a run of C code: a value, or a fault
-- (an access outside an object, a null pointer, the C runtime's invalid parameter handler).
-- Texts are lists of character codes without their terminators.
-- Crt: the functions of the C runtime that the code calls, as the C standard and the runtime's
-- documentation describe them.
-- Lua: the interface of Lua 5.1 to C as far as the code calls it, a stack of values over a
-- heap, and `lua_reset` of netdisk4tc/utility.c. The heap and what Lua's functions do in it are
-- the parameter `Heap`.
-- Dictionary (netdisk4tc/dictionary.c, dictionary.h): the linked list of entries. The
-- operations keep their names; the chain of `next` pointers is a list and a pointer to an entry
-- is its position. Blocks and values that leave the dictionary are lists of releases, so that
-- ownership can be stated. Which allocations of a call succeed is an argument. Dictionary.Nodes
-- has the operations on memory, nodes at addresses, and Nodes.Runs relates the two; the address
-- that `malloc` gives for a node is an argument, which is unused where it is given.
-- Utility (netdisk4tc/utility.c): `wcslcpy` and `strlcpy`, `trim` and `wtrim`, `strtotime`, and
-- the conversions between code pages.
-- Http (netdisk4tc/http.c, http.h): Http.Request writes requests, Http.Response parses
-- responses, Http.Connect opens and closes connections over the answers of Winsock and OpenSSL,
-- and Http.Transfer receives and runs a request; Http.Release gives requests and responses
-- back. The HTTP headers are dictionaries.
-- Disk (netdisk4tc/disk.c, disk.h): the configured disks, a dictionary from nicknames. Disk
-- itself has `ndisk_parse`, Disk.Store saves and loads through the profile functions of
-- Windows, whose documented behaviour is the interface `IsProfile` of Disk.Saved, and
-- Disk.Listing turns the rows of a script into the entries of a directory. Disk.Script is the
-- same code with every call of Lua, on the stack; Disk.Agree and Disk.Refine relate the two.
-- Plugin (netdisk4tc/ndpluginw.c): the searches of `FsFindFirstW`, `FsFindNextW` and
-- `FsFindClose`, and the other calls of the file manager; Plugin.Module keeps the kinds of
-- disks for `DllMain`, Plugin.Load is `DllMain` when the process attaches, with every call of
-- Lua, and Plugin.Commands has what the file manager has the plugin do, with the dialog that
-- adds or overwrites a disk. Plugin.Names takes the dialog and the scripts together, in any
-- order of their calls, and Plugin.Sessions searches that are open at the same time. A search
-- reads the dictionary of the disks, or one that `ndisk_dir` has filled.
-- Wrapper (netdisk4tc/wrapper.c): `wp_http`, which splits a URL and runs a request, and
-- `wp_savt`, which gives a disk a new token and saves the disks; Wrapper.Release is the same
-- call with all that it acquires and gives back, and Wrapper.Arguments has both on the stack of
-- Lua, and Wrapper.Explorer `wp_explorer` and `wp_utoc`. Explorer.Messages is the queue behind
-- its loop, with `AuthProc` for each message; what Windows is documented to do with a queue is
-- the interface `IsWindows`. Explorer.Address is `UI_TranslateUrl` of
-- netdisk4tc/webbrowser/cwebpage.c, which the program has changed to send the token of a page.
-- Ui (netdisk4tc/ui.c): `NewdiskProc`, which adds a disk with the texts of the dialog, and
-- `AuthProc`.
-- Tests: runs on concrete inputs, and the theorems at inputs that meet their hypotheses.
--
-- Parameters: the queue of messages, the conversions `ctow` and `wtoc` through the system's
-- code pages, `SystemTimeToFileTime`, `_wsplitpath_s`, the answers of the network, the profile
-- functions, the heap of Lua, and the scripts.
-- Four kinds of loops run on fuel: `dispatched`, whose theorem asks for more rounds than there
-- are messages, those of Dictionary.Nodes, with one round more than `length` says,
-- `header_loop`, to which `http_response_fromstr` gives one round more than there are
-- characters (Http.Malformed shows that more rounds change nothing), and the loops of
-- Disk.Script and Wrapper.Arguments over tables, whose theorems ask for more rounds than the
-- tables have pairs.
--
-- Bounds: `PATH_MAX` is 260, the receive buffer 4096 bytes, the buffer of section names 4096
-- characters, that of the dialog's fields 1024, wide characters have two bytes and pointers four.
--
-- Not modelled: the Lua interpreter (netdisk4tc/lua) and the rest of the browser window
-- (netdisk4tc/webbrowser), which are copies of other projects; the scripts in entries/. The
-- windows of `wp_explorer` are calls that are recorded, and the message of `ndisk_dir` for a
-- script without `dir` and the questions of `NewdiskProc` are not: their answers are arguments.
-- Numbers of Lua are whole and not negative; `fault` stands for an error of Lua where a call is
-- not protected. Allocations whose result the code does not test succeed, except in the
-- dictionary.
pub mod Base
pub mod Crt
pub mod Lua
pub mod Dictionary
pub mod Utility
pub mod Http
pub mod Disk
pub mod Plugin
pub mod Wrapper
pub mod Ui
pub mod Tests
