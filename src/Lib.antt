-- ===== src/Lib.antt =====
-- Naemon Livestatus answers queries of clients about the state of the monitoring core Naemon. A client sends a
-- request, which is a line `GET table` and header lines, ended by an empty line. `InputBuffer` reads the
-- lines from the socket; `Query` makes filters, columns, sort columns and settings of the headers; the
-- table hands its rows to the query one by one, which filters them and prints them or puts them into
-- the heap of `RowSortedSet`; what is printed collects in `OutputBuffer`, which sends it.
--
-- The files, and the code that they are about:
-- Text (src/strutil.cc): the string functions. A string is the list of its bytes before the terminating
--   zero, and a pointer into it is what is left from there. Text.Fields is about lines of words,
--   Text.Escape about escaped newlines, Text.Numbers about decimal numbers,
--   Text.Fuel about the loop over the fields of a line.
-- Output (src/OutputBuffer.cc, src/OutputBuffer.h): the buffer of a response. Output.Capacity is about its
--   memory, Output.Header about the fixed16 header, Output.Sending about the loop of `writeData`, whose
--   rounds are a list of events.
-- Print (src/Query.cc, `output...`): values in the formats csv, json, python and wrapped_json. Print.Json
--   and Print.Decode are about `outputString`. Print.Lists has lists and dictionaries, and the list of names of
--   src/HostgroupsColumn.cc, which Print.Names is about.
-- Filter (src/AndingFilter.cc, src/OringFilter.cc, src/NegatingFilter.h, src/IntColumnFilter.cc,
--   src/TimeColumnFilter.cc, src/StringColumnFilter.cc): a filter is a tree. Filter.Narrowing is what it tells a table
--   beforehand; Filter.Bitmask and
--   Filter.Selected are about `optimizeBitmask`, Filter.TimeLimits about `findTimeLimits`, Filter.Index
--   about `indexFilter`, Filter.Combine about the stack of filters. A compiled regular expression is a
--   function.
-- Sorter (src/RowSortedSet.cc): the heap as a list. Sorter.Order says what an order of rows is,
--   Sorter.Compare is about `compare`, Sorter.Up and Sorter.Down about the two loops, Sorter.Insert about
--   `insert` and `extract`, Sorter.Top about a series of insertions.
-- Input (src/InputBuffer.cc): `readRequest`, with what `readData` meets as a list of events and the bytes
--   that the client has sent as a list. Input.Lines is about the loop over the bytes in the buffer,
--   Input.Request about a complete request, Input.TooLong about a line that does not fit.
-- Query (src/Query.cc, src/Query.h): the state of a query. Query.Headers, Query.FilterHeaders and
--   Query.StatsHeaders are the parsers of the header lines, Query.Parse the loop over them; Query.Valid,
--   Query.Steps and Query.Request are about what they leave alone, Query.Operators about the comparisons,
--   Query.Localtime about the time zone. Query.Paging is about the rows that are printed: Query.Paging.Plain
--   without `Sort:`, Query.Paging.Sorted, Query.Paging.Cut and Query.Paging.Limits with it.
--   Query.Run is a query while it runs, `processDataset` for each row, and Query.Run.Ends its `start` and `finish`;
--   Query.Run.Answer is the whole. Query.Run.Steps is about the ways on which the rows end, Query.Run.Plain,
--   Query.Run.Sorting and Query.Run.Pages about a query without statistics, Query.Run.Totals and Query.Run.Counts about
--   statistics without columns, Query.Run.Groups, Query.Run.Grouping and Query.Run.Summaries about groups. Query.Wait is
--   `doWait`, step by step, Query.Wait.Ending is about its end, Query.Wait.Reason about
--   what is known then, and Query.Wait.Refused about a deadline that POSIX does not allow. Query.Answered says which
--   requests can be read.
-- Aggregators (src/CountAggregator.cc, src/IntAggregator.cc): the statistics over the rows of a group;
--   Aggregators.Totals is about what they come to.
-- LogEntry (src/LogEntry.cc): a line of the log of the core, read into its fields. LogEntry.Status and
--   LogEntry.Messages are the handlers, LogEntry.Parse the constructor; LogEntry.Alerts, LogEntry.Notifications and
--   LogEntry.Programm are about lines of one kind, LogEntry.Shape about all entries.
-- Logfile (src/Logfile.cc): a log file and its messages in memory, with Logfile.Ending for `end` and
--   Logfile.Entries about the map of messages. A file is the list of the lines that `fgets` reads.
-- LogCache (src/LogCache.cc, and `load` and `loadRange` of src/Logfile.cc): all files in memory, opened at the
--   one that a query reads. LogCache.Load is the loading, LogCache.Messages what a file has to offer,
--   LogCache.Count, LogCache.Bound, LogCache.Shrink and LogCache.Keep are about `handleNewMessage`,
--   LogCache.Range and LogCache.Complete about `loadRange`, LogCache.Coherent, LogCache.Once,
--   LogCache.Grown and LogCache.Readable about `load`. LogCache.Index is the index of the files, LogCache.Sinces and
--   LogCache.Indexed are about it.
-- TableLog (src/TableLog.cc, and the queries of src/Logfile.cc): a query of the log. What the query does with a
--   message is a function on its state. TableLog.Archive says what is taken to hold of the log files.
--   TableLog.Feeding and TableLog.Windows are about one file, TableLog.Walk, TableLog.Single and TableLog.Answer about the walk
--   back through the files, TableLog.Limits and TableLog.Report about where it begins, TableLog.Result and
--   TableLog.Termination about the whole.
-- Store (src/Store.cc): a request from its reading to its answer, with the lock of the log cache. Store.Answer is
--   the answer, Store.Locking is about the lock, Store.Refusing about a table that does not exist. The steps of a query in a table are
--   functions of the table.
-- States (src/ServicelistStateColumn.cc, src/HostlistStateColumn.cc): the numbers and the worst of the states in
--   lists of services and hosts; the numbers have no bound. States.Walks compares the two ways to walk.
-- Prelude: Booleans, lists, tests and integers over the native numbers, and 32-bit words with their bits.
-- Tests: the theorems on single inputs, and runs of the definitions.
--
-- Loops without a bound in the code run on fuel, and their result is absent when it is used up. The fuel is
-- the length of the heap and one for the loops of the heap, the length of the line and one for the fields
-- of a line, the length of the string and one for `outputString`, the size needed for the growth of the
-- buffer, one more than the older log files for the two
-- loops of a query of the log, and 33 for the loops over the 32 bits of a mask; the theorems on these loops state the result
-- itself, so the fuel is enough. `readRequest` runs on the list of events.
--
-- What the code takes from elsewhere is a parameter: the columns and their filters, the tables, the contacts
-- and the clock of the core, what an aggregator does with a row, and the comparison of rows by a column, which is
-- taken to be an order. Signals of other threads, and the time, are events.
-- Reference times, line numbers and the sizes of buffers are unbounded numbers; the code's own conversions to 32 bits are
-- written out. The sum of a limit and an offset, whose overflow C leaves undefined, wraps around; the theorems on pages have a bound
-- for it. The other undefined behaviour that is modelled, such as `atoi` of a null pointer, is the absence of a result.
--
-- Not modelled: the state history, the columns and tables that read the structures of the core, the aggregators
-- on floating point numbers, and the output of such numbers.
pub mod Prelude
pub mod Text
pub mod Output
pub mod Print
pub mod Filter
pub mod Query
pub mod Aggregators
pub mod Input
pub mod LogEntry
pub mod Logfile
pub mod LogCache
pub mod TableLog
pub mod Store
pub mod States
pub mod Sorter
pub mod Tests
